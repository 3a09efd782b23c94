-- ===== src/Session/Settings/Tests.antt =====
-- A state provider that asks for no skew.
use hog.Base.{Option, some, ok, ◌≡◌, refl, String, ◌==◌, false, String-discrete}
use hog.Session.Settings.{
  Duration, seconds, RawStateProvider, StateProviderConfig, parse_state_provider,
}

abbrev parse_zero : String → Option Duration
parse_zero s = some (seconds 0)

abbrev raw : RawStateProvider (Unit {0})
raw = record { type = "valkey"; refresh_skew = "0s"; key_prefix = ""; config = tt }

abbrev parsed : StateProviderConfig (Unit {0})
parsed = record { type = "valkey"; refresh_skew = seconds 0; key_prefix = "hog:sess:"; config = tt }

accepted : parse_state_provider parse_zero raw ≡ ok parsed
unfolding parse_state_provider String-discrete
accepted = refl

not_empty : (raw.refresh_skew == "") ≡ false
unfolding String-discrete
not_empty = refl
