-- ===== src/Prelude/Plain.antt =====
-- Header maps as functions from names to values, which meet the laws of `HeaderMaps`.
use chromulate.Prelude.{List, [], some, refl, if◌then◌else◌, ◌==◌}
use chromulate.Prelude.Text.{Text, text_comparable, to_ascii_lowercase}
use chromulate.Prelude.Headers.{HeaderMaps, first, has_any}

abbrev pub plain : HeaderMaps
plain = record {
  Headers = Text → List Text;
  get_all = λ n h. h n;
  get = λ n h. first (h n);
  contains_key = λ n h. has_any (h n);
  remove = λ n h m. if n == m then [] else h m;
  to_str = λ v. some v;
  header_name = λ n. some (to_ascii_lowercase n);
  get_first = λ n h. refl;
  contains_any = λ n h. refl;
  get_all-remove = λ n m h. refl;
}

abbrev pub no_headers : Text → List Text
no_headers n = []
