-- ===== src/Prelude/Headers.antt =====
-- What the program uses of the `http` crate's header maps, which is not part of this repository.
-- Names are lower case; a value is its bytes, and `to_str` is its reading as visible ASCII.
use mathlib.Core.Path.{◌≡◌}
use mathlib.Core.Bool.{Bool, true, false}
use mathlib.Core.List.{List, [], ◌∷◌}
use mathlib.Core.Option.{Option, none, some}
use chromulate.Prelude.Tests.{◌==◌, if◌then◌else◌}
use chromulate.Prelude.Text.{Text, text_comparable}

abbrev pub first : List Text → Option Text
first [] = none
first (v ∷ vs) = some v

abbrev pub has_any : List Text → Bool
has_any [] = false
has_any (v ∷ vs) = true

pub record HeaderMaps : Type 1 where
  pub Headers : Type 0
  pub get_all : Text → Headers → List Text
  pub get : Text → Headers → Option Text
  pub contains_key : Text → Headers → Bool
  pub remove : Text → Headers → Headers
  pub to_str : Text → Option Text
  pub header_name : Text → Option Text
  pub get_first : (n : Text) (h : Headers) → get n h ≡ first (get_all n h)
  pub contains_any : (n : Text) (h : Headers) → contains_key n h ≡ has_any (get_all n h)
  pub get_all-remove :
      (n m : Text) (h : Headers) → get_all m (remove n h) ≡ (if n == m then [] else get_all m h)
