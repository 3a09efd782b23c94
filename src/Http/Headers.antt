-- ===== src/Http/Headers.antt =====
-- Laws of header maps: what `Get` reads after `Set` and `Del`.
use hog.Base.{String, ◌≡◌, arith, ◌==◌, if◌then◌else◌}
use hog.Base.Text
use hog.Base.Dict
use hog.Http.{Header, get, set, del}

pub get-set :
    (j k v : String) (h : Header)
    → get j (set k v h) ≡ (if Text.canonical j == Text.canonical k then v else get j h)
unfolding get set
get-set j k v h = rw Dict.lookup-insert (ground arith)

pub get-del :
    (j k : String) (h : Header)
    → get j (del k h) ≡ (if Text.canonical j == Text.canonical k then "" else get j h)
unfolding get del
get-del j k h = rw Dict.lookup-erase (ground arith)
