-- ===== src/Terminal/Static.antt =====
-- terminal/static.go: files of a directory. The directory (os.Root), http.ServeContent and the logs are not
-- the code's: the root is a parameter, and so is ServeContent.
mod Visible
pub mod Contained
mod Tests
use hog.Base.{
  String, ◌<>◌, ℕ, Bool, true, false, Option, none, some, List, [], ◌∷◌, any, Result, ok, err,
  guard, or_fail, ◌>>◌, ◌>>=◌, not, ◌&&◌, ◌||◌, ◌==◌, if◌then◌else◌,
}
use hog.Base.Text.{has_prefix, trim_prefix, split}
use hog.Base.Text.Paths.{clean_path, join_path, ext_path, base_path}
use hog.Http.{Request, Writer, set_header, error}

-- a segment that `cleanRequestPath` refuses: a dotfile, or ".."
abbrev pub hidden : String → Bool
hidden seg = not (seg == "" || seg == ".") && has_prefix seg "."

abbrev root_or : String → Option String
root_or p = if p == "." then some "" else some p

-- `cleanRequestPath`
unfoldable pub clean_request_path : String → String → Option String
clean_request_path url_path strip_prefix =
    let stripped =
      if not (strip_prefix == "") then trim_prefix url_path strip_prefix else url_path in
    let p = trim_prefix stripped "/" in
    if any hidden (split b'/' p) then none else root_or (clean_path p)

-- `staticConfig`
pub record StaticConfig : Type 0 where
  pub dir : String
  pub index : String
  pub spa_fallback : Option Bool
  pub strip_prefix : String
  pub cache_control : String

-- an open file: the numbers of its ETag as they are printed, and what the content is
pub record File : Type 0 where
  pub size_hex : String
  pub mod_time_hex : String
  pub content : String

-- what opening a name ends with
pub data Opened : Type 0 where
  open_failed stat_failed directory : Opened
  regular : File → Opened

-- an `os.Root`: `is_dir` is none where `Stat` fails
pub record Root : Type 0 where
  pub open_file : String → Opened
  pub is_dir : String → Option Bool

-- `staticHandler`
pub record StaticHandler : Type 0 where
  pub root : Root
  pub index : String
  pub spa_fallback : Bool
  pub strip_prefix : String
  pub cache_control : String

pub data StaticError : Type 0 where
  dir_required open_dir_failed : StaticError

abbrev true_or : Option Bool → Bool
true_or none = true
true_or (some b) = b

-- the factory of `registerStatic`
pub new_static : (String → Option Root) → StaticConfig → Result StaticError StaticHandler
new_static open_root sc =
    guard (not (sc.dir == "")) dir_required
    >> (or_fail (open_root sc.dir) open_dir_failed >>= λ root. ok (record {
      root = root;
      index = if sc.index == "" then "index.html" else sc.index;
      spa_fallback = true_or sc.spa_fallback;
      strip_prefix = sc.strip_prefix;
      cache_control = sc.cache_control;
    }))

cache_headers : StaticHandler → String → Writer → Writer
cache_headers h name w =
    if base_path name == h.index
    then set_header "Cache-Control" "no-cache" w
    else if not (h.cache_control == "")
    then set_header "Cache-Control" h.cache_control w
    else w

etag : File → String
etag f = "\"" <> (f.size_hex <> ("-" <> (f.mod_time_hex <> "\"")))

-- `http.NotFound`
abbrev pub not_found : Writer → Writer
not_found w = error "404 page not found" 404 w

module _ (serve_content : Request → String → File → Writer → Writer) where
  -- `serveFile`, none where it does not handle the request
  pub serve_file : StaticHandler → Request → String → Writer → Option Writer
  unfolding cache_headers etag
  serve_file h r name w = elim (h.root.open_file name) [
    | open_failed ↦ none
    | stat_failed ↦ some (error "internal error" 500 w)
    | directory ↦ none
    | regular f ↦
        some (serve_content r name f (set_header "ETag" (etag f) (cache_headers h name w)))
  ]

  abbrev or_writer : Option Writer → Writer → Writer
  or_writer none w = w
  or_writer (some w) w' = w

  -- the name of the file of a path
  pub target : StaticHandler → String → String
  target h rel = if rel == "" then h.index else elim (h.root.is_dir rel) [
    | some true ↦ join_path rel h.index
    | some false ↦ rel
    | none ↦ rel
  ]

  -- the file, else the shell, else 404
  pub serve_path : StaticHandler → Request → String → Writer → Writer
  unfolding serve_file target
  serve_path h r rel w =
      let shell = or_writer (serve_file h r h.index w) (not_found w) in
      or_writer (serve_file h r (target h rel) w)
        (if h.spa_fallback && ext_path rel == "" then shell else not_found w)

  -- `ServeHTTP`
  unfoldable pub serve_static : StaticHandler → Request → Writer → Writer
  unfolding clean_request_path serve_path
  serve_static h r w =
      if not (r.method == "GET") && not (r.method == "HEAD")
      then error "method not allowed" 405 (set_header "Allow" "GET, HEAD" w)
      else elim (clean_request_path r.path h.strip_prefix) [
        | none ↦ not_found w
        | some rel ↦ serve_path h r rel w
      ]
