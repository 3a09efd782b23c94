-- ===== src/Terminal/Static/Contained.antt =====
-- Which files of the directory a request can reach.
use hog.Base.{
  String, some, any, ◌≡◌, refl, arith, not, ◌==◌, if◌then◌else◌, Bool-cases, Option-cases, inl, inr,
}
use hog.Base.Text.{trim_prefix, split}
use hog.Base.Text.Paths.{clean_path, join_path}
use hog.Http.{Request, Writer}
use hog.Terminal.Static.{
  hidden, clean_request_path, root_or, Root, StaticHandler, File, serve_file, serve_path,
  serve_static, target,
}
use hog.Terminal.Static.Visible.{
  IsVisible, clean_path-IsVisible, join_path-IsVisible, empty_IsVisible,
}

root_or-IsVisible : (p q : String) → IsVisible p → root_or p ≡ some q → IsVisible q
root_or-IsVisible p q h e = elim (Bool-cases (p == ".")) [
  | inl f ↦ let same : q ≡ "" = ground (arith, e, f) in rw same empty_IsVisible
  | inr f ↦ let same : q ≡ p = ground (arith, e, f) in rw same h
]

-- A path that is accepted has no hidden segment.
pub clean_request_path-IsVisible :
    (url_path strip_prefix p : String)
    → clean_request_path url_path strip_prefix ≡ some p
    → IsVisible p
unfolding clean_request_path
clean_request_path-IsVisible url_path strip_prefix p e =
    let q =
      trim_prefix (if not (strip_prefix == "") then trim_prefix url_path strip_prefix else url_path)
        "/" in
    elim (Bool-cases (any hidden (split b'/' q))) [
      | inl f ↦ absurd (ground (arith, e, f))
      | inr f ↦ root_or-IsVisible (clean_path q) p (clean_path-IsVisible q f) (ground (arith, e, f))
    ]

-- Two directories agree on a name.
abbrev pub Agree : Root → Root → String → Type 0
Agree a b name = (a.open_file name ≡ b.open_file name) × (a.is_dir name ≡ b.is_dir name)

abbrev pub with_root : Root → StaticHandler → StaticHandler
with_root root h = record h { root = root }

module _ (serve_content : Request → String → File → Writer → Writer) where
  serve_file-Agree :
      (a b : Root) (h : StaticHandler) (r : Request) (name : String) (w : Writer)
      → a.open_file name ≡ b.open_file name
      → serve_file serve_content (with_root a h) r name w
        ≡ serve_file serve_content (with_root b h) r name w
  unfolding serve_file
  serve_file-Agree a b h r name w e = rw e refl

  serve_path-Agree :
      (a b : Root) (h : StaticHandler) (r : Request) (rel : String) (w : Writer)
      → Agree a b rel
      → Agree a b h.index
      → Agree a b (join_path rel h.index)
      → serve_path serve_content (with_root a h) r rel w
        ≡ serve_path serve_content (with_root b h) r rel w
  unfolding serve_path target
  serve_path-Agree a b h r rel w (f, g) (f', g') (f'', g'') = ground (
    arith,
    g,
    serve_file-Agree a b h r rel w f,
    serve_file-Agree a b h r h.index w f',
    serve_file-Agree a b h r (join_path rel h.index) w f'',
  )

  -- What a client is sent depends on the visible files alone: two directories that agree on every name without a hidden
  -- segment, a name that begins with a dot, answer every request alike, whatever lies in the hidden ones; where the
  -- index is not hidden.
  pub serve_static-hidden :
      (a b : Root) (h : StaticHandler) (r : Request) (w : Writer)
      → ((name : String) → IsVisible name → Agree a b name)
      → IsVisible h.index
      → serve_static serve_content (with_root a h) r w
        ≡ serve_static serve_content (with_root b h) r w
  unfolding serve_static
  serve_static-hidden a b h r w agree v =
      elim (Option-cases (clean_request_path r.path h.strip_prefix)) [
        | inl e ↦ ground (arith, e)
        | inr (rel, e) ↦
            let seen = clean_request_path-IsVisible r.path h.strip_prefix rel e in
            let same =
              serve_path-Agree a b h r rel w (agree rel seen) (agree h.index v)
                (agree (join_path rel h.index) (join_path-IsVisible rel h.index seen v)) in
            ground (arith, e, same)
      ]
