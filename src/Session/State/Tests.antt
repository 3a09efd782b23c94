-- ===== src/Session/State/Tests.antt =====
-- A session kept in the store: issued, read, refreshed by one of two requests, and cleared.
use hog.Session.Manager.Browser.{accept}
use hog.Session.State.RoundTrip.{issued_cookie}
use hog.Http.{SetCookie}
use hog.Base.{
  String, ◌+◌, ◌≤◌, none, some, [], ◌∷◌, ◌≡◌, ◌≢◌, refl, sym, ap, ◌∙◌, ok, err, arith, ◌==◌,
  if◌then◌else◌, String-discrete,
}
use mathlib.Core.Option.{some-injective}
use hog.Base.Text
use hog.Base.Dict.{Dict, lookup, insert}
use text.Mathlib.TextLemmas.{cons≢nil}
use hog.Http.{Request}
use hog.Session.Principal.{empty_context}
use hog.Session.Sealer.{seal, unseal}
use hog.Session.Record.{Session, Config, Identity, Tokens, make_session, compute_fingerprint}
use hog.Session.Manager.{invalid_session}
use hog.Session.State.{
  StoredSession, StateManager, Moments, key, correlation_id, load, seal_record, rotate,
  locked_refresh, maybe_refresh, read, read_id, finish, fresh, renewed, restore, issued_record,
  cookie_named, issue, clear,
}
use hog.Session.State.Refresh.{IsKept, IsReadFrom, but_token, maybe_refresh-alive, read-stored}
use hog.Session.State.RoundTrip.{
  IsFaithful, IsReliable, but_correlation, locked_refresh-collapse, read-issue_stored,
  read-clear_stored,
}
use hog.Session.Fixtures.{
  toy_aead, toy_aead-IsSound, list_store, list_store-IsLawful, write_clear, read_clear,
}

abbrev config : Config
config = record {
  cookie_name = "hog_session";
  key = "key";
  ttl = 3600;
  fingerprint_headers = [];
  passport_claims = "sub" ∷ [];
  groups = none;
  info_path = "/session";
  post_logout_redirect = "/";
  subject_claim = "sub";
}

abbrev alice : Identity
alice = record { subject = "alice"; claims = [] }

abbrev tokens : Tokens
tokens = record { id_token = "i"; access_token = "a"; refresh_token = "rt1"; expiry = 400 }

abbrev renewed_tokens : Tokens
renewed_tokens = record { id_token = ""; access_token = "b"; refresh_token = "rt2"; expiry = 900 }

abbrev request : Request
request = record {
  method = "GET";
  path = "/";
  uri = "/";
  pattern = "";
  host = "x";
  remote_addr = "";
  header = [];
  cookies = record { name = "hog_session"; value = "sid" } ∷ [];
  context = empty_context;
}

abbrev session : Session
session = record {
  subject = "alice";
  passport = [];
  groups = [];
  access_token = "a";
  expiry = 3700;
  issued_at = 100;
  fingerprint = "";
  correlation_id = "";
}

abbrev stored : StoredSession
stored = record { session = session; refresh_token = "rt1"; access_expiry = 400 }

abbrev manager_of : StoredSession → StateManager (Dict String)
manager_of rec = record {
  lower = Text.lower_char;
  hash = λ s. s;
  aead = toy_aead;
  marshal = λ r. r.refresh_token;
  unmarshal = λ t. some (
      if t == "rt1" then rec else record rec {
        session = record rec.session { access_token = "b" };
        refresh_token = "rt2";
        access_expiry = 900;
      });
  store = list_store;
  refresh = some (λ t w. (some renewed_tokens, w));
  cfg = config;
  refresh_skew = 60;
  key_prefix = "hog:sess:";
}

abbrev manager : StateManager (Dict String)
manager = manager_of stored

abbrev at : Moments (Dict String)
at = record { entry = 370; locked = 371; failed = 372; stored = 373; others = λ w. w }

abbrev nonce : String
nonce = "nonce-of-12b"

abbrev state : Dict String
state = (key manager "sid", seal_record manager nonce stored) ∷ []

reliable : IsReliable manager
reliable = record { lawful = list_store-IsLawful; sound = toy_aead-IsSound }

maybe_refresh-alive_example :
    (maybe_refresh manager at nonce (key manager "sid") stored state).0 ≢ none
maybe_refresh-alive_example =
    maybe_refresh-alive manager at nonce (key manager "sid") stored state (omega arith)

carried : cookie_named "hog_session" request.cookies ≡ some "sid"
unfolding cookie_named String-discrete
carried = refl

read-clear_stored_example :
    (read manager at nonce request (clear manager request state).1).0 ≡ err invalid_session
read-clear_stored_example =
    read-clear_stored manager reliable nonce "sid" request request at state carried carried
      (λ e. cons≢nil e) refl

read_now : Session
read_now = record session { access_token = "b"; correlation_id = "hog/sesscorr" }

read_refreshes : (read manager at nonce request state).0 ≡ ok read_now
unfolding read read_now read_id finish maybe_refresh locked_refresh renewed fresh load rotate
    restore cookie_named String-discrete lookup insert unseal seal write_clear read_clear
    compute_fingerprint Text.split_at
read_refreshes = refl

kept :
    (id : String) (rec : StoredSession)
    → load manager 370 (key manager id) state ≡ some rec
    → IsKept manager at nonce (key manager id) rec state
unfolding load
kept id rec h newer g = ap (λ r. but_token r.session) (some-injective newer rec (sym g ∙ h))

read-stored_example :
    (id : String) × (rec : StoredSession) × (cookie_named "hog_session" request.cookies ≡ some id)
    × (load manager 370 (key manager id) state ≡ some rec)
    × IsReadFrom manager at nonce request id rec read_now
read-stored_example = read-stored manager at nonce request read_now state kept read_refreshes

rotated-IsFaithful :
    manager.unmarshal (manager.marshal (rotate renewed_tokens stored))
    ≡ some (but_correlation (rotate renewed_tokens stored))
unfolding rotate String-discrete
rotated-IsFaithful = refl

stale :
    (newer : StoredSession)
    → load manager 371 (key manager "sid") state ≡ some newer
    → newer.access_expiry ≤ 371 + 60
unfolding load lookup unseal seal write_clear read_clear String-discrete Text.split_at
stale newer e = ground (arith, ap (λ r. r.access_expiry) (some-injective stored newer e))

abbrev after_refresh : Dict String
after_refresh =
    (locked_refresh manager (λ t w. (some renewed_tokens, w)) at nonce (key manager "sid") stored
      state).1

locked_refresh-collapse_example :
    locked_refresh manager
      (λ t w. (some renewed_tokens, w))
      at
      "other-nonce1"
      (key manager "sid")
      stored
      after_refresh
    ≡ (some (but_correlation (rotate renewed_tokens stored)), after_refresh)
locked_refresh-collapse_example =
    locked_refresh-collapse manager reliable (λ t w. (some renewed_tokens, w)) at at nonce
      "other-nonce1" (key manager "sid") stored stored renewed_tokens state state rotated-IsFaithful
      refl stale refl (omega arith) refl (omega arith) (omega arith)

abbrev issuing : StateManager (Dict String)
issuing = manager_of (record {
  session = make_session Text.lower_char (λ s. s) 100 config alice [] tokens request;
  refresh_token = "rt1";
  access_expiry = 400;
})

issued-IsFaithful : IsFaithful issuing (issued_record issuing 100 request alice [] tokens)
unfolding make_session String-discrete
issued-IsFaithful = refl

abbrev issuing-IsReliable : IsReliable issuing
issuing-IsReliable = record { lawful = list_store-IsLawful; sound = toy_aead-IsSound }

abbrev sid_cookie : SetCookie
sid_cookie = issued_cookie issuing issuing-IsReliable "sid" request

abbrev after_issue : Dict String
after_issue = (issue issuing 100 nonce "sid" request alice [] tokens []).1

stored_ok :
    issue issuing 100 nonce "sid" request alice [] tokens [] ≡ (some sid_cookie, after_issue)
unfolding issue
stored_ok = refl

abbrev next_request : Request
next_request = record request { cookies = accept (sid_cookie ∷ []) [] }

read-issue_stored_example :
    read issuing (record at { entry = 200 }) nonce next_request after_issue ≡ (
      ok (record (make_session Text.lower_char (λ s. s) 100 config alice [] tokens request) {
        correlation_id = correlation_id issuing "sid";
      }),
      after_issue,
    )
unfolding accept
read-issue_stored_example =
    read-issue_stored issuing issuing-IsReliable nonce nonce "sid" request next_request alice []
      tokens 100 (record at { entry = 200 }) sid_cookie [] [] after_issue issued-IsFaithful refl
      (λ e. cons≢nil e) stored_ok refl refl (omega arith) (omega arith)
