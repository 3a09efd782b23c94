-- ===== src/Terminal/Static/Tests.antt =====
-- A directory with a hidden file.
use hog.Base.{
  String, true, false, none, some, [], ◌≡◌, refl, ap, arith, any, ◌==◌, if◌then◌else◌,
  String-discrete,
}
use hog.Base.Text
use hog.Base.Text.Paths.{clean_path}
use hog.Http.{Request, Writer, new_writer}
use hog.Session.Principal.{empty_context}
use hog.Terminal.Static.{
  Root, StaticHandler, File, regular, open_failed, hidden, serve_static, clean_request_path,
}
use hog.Terminal.Static.Visible.{IsVisible}
use hog.Terminal.Static.Contained.{Agree, with_root, serve_static-hidden}

abbrev file : String → File
file s = record { size_hex = "1"; mod_time_hex = "2"; content = s }

abbrev directory_with : String → Root
directory_with secret = record {
  open_file = λ name.
      if name == ".env"
      then regular (file secret)
      else if name == "index.html"
      then regular (file "hi")
      else open_failed;
  is_dir = λ name. some false;
}

abbrev handler : StaticHandler
handler = record {
  root = directory_with "a";
  index = "index.html";
  spa_fallback = true;
  strip_prefix = "";
  cache_control = "";
}

abbrev request : Request
request = record {
  method = "GET";
  path = "/.env";
  uri = "/.env";
  pattern = "";
  host = "x";
  remote_addr = "10.0.0.2";
  header = [];
  cookies = [];
  context = empty_context;
}

abbrev content : Request → String → File → Writer → Writer
content r name f w = record w { body = f.content }

index-IsVisible : IsVisible "index.html"
unfolding Text.split Text.has_prefix String-discrete
index-IsVisible = refl

env_hidden : any hidden (Text.split b'/' ".env") ≡ true
unfolding Text.split Text.has_prefix String-discrete
env_hidden = refl

agree : (name : String) → IsVisible name → Agree (directory_with "a") (directory_with "b") name
agree name v = elim (String-discrete name ".env") [
  | yes p ↦ absurd (ground (arith, v, ap (λ n. any hidden (Text.split b'/' n)) p, env_hidden))
  | no n ↦ (ground (arith, n), refl)
]

accepted : clean_request_path "/a/../b/" "" ≡ none
unfolding clean_request_path Text.split Text.has_prefix String-discrete Text.trim_prefix
accepted = refl

cleaned : clean_request_path "/a//b/" "" ≡ some "a/b"
unfolding clean_request_path Text.split Text.has_prefix String-discrete Text.trim_prefix clean_path
    Text.join
cleaned = refl

serve_static-hidden_example :
    serve_static content (with_root (directory_with "a") handler) request new_writer
    ≡ serve_static content (with_root (directory_with "b") handler) request new_writer
serve_static-hidden_example =
    serve_static-hidden content (directory_with "a") (directory_with "b") handler request new_writer
      agree index-IsVisible
