-- ===== src/Http/Redirect/Tests.antt =====
-- A redirect between concrete URLs, and the theorems at it.
use chromulate.Prelude.{ℕ, true, some, List, [], ◌∷◌, ◌≡◌, ◌⊎◌, inr, refl, ◌==◌, if◌then◌else◌}
use chromulate.Prelude.Text.{Text, ascii, text_comparable, trim, to_ascii_lowercase}
use chromulate.Prelude.Plain.{plain}
use chromulate.Core.Uri.{Urls, origin_of, origin_beq}
use chromulate.Http.Redirect.{
  Hop, follow, is_redirect, method_after, crosses_origin, resolve_location, decide, Parts,
  hop_headers, rebuild,
}
use chromulate.Http.Redirect.Decisions.{IsHop, decide-IsHop}
use chromulate.Http.Redirect.Rebuilding.{is_left_behind, get_all-rebuild}

-- A URL is its scheme, its host and its port; a location is the host of an `https` URL.
abbrev hosts : Urls
hosts = record {
  Url = Text × Text × ℕ;
  as_str = λ v. v.1;
  scheme = λ v. v.0;
  host_str = λ v. some v.1;
  port_or_known_default = λ v. some v.2;
  join = λ v raw. inr (ascii "https", raw, 443);
}

abbrev at_host : Text → Text × Text × ℕ
at_host name = (ascii "https", name, 443)

abbrev moved : Text → List Text
moved n =
    if n == ascii "location"
    then ascii "b.test" ∷ []
    else if n == ascii "cookie"
    then ascii "s=1" ∷ []
    else []

abbrev to_b : Hop (Text × Text × ℕ)
to_b = record {
  url = at_host (ascii "b.test");
  verb = ascii "GET";
  drop_body = true;
  cross_origin = true;
}

post_moves :
    decide hosts plain 302 moved (at_host (ascii "a.test")) (ascii "POST") (some 20) 3
    ≡ inr (follow to_b)
unfolding decide is_redirect method_after crosses_origin resolve_location origin_of origin_beq trim
    to_ascii_lowercase
post_moves = refl

decide-IsHop_example : IsHop hosts 302 (at_host (ascii "a.test")) (ascii "POST") (some 20) 3 to_b
decide-IsHop_example =
    decide-IsHop hosts plain 302 moved (at_host (ascii "a.test")) (ascii "POST") (some 20) 3 to_b
      post_moves

abbrev any_uri : Text → Text ⊎ Text
any_uri t = inr t

-- A request with its own cookies, whose body is a number.
abbrev before_hop : Parts Text (Text → List Text) ℕ
before_hop = record { verb = ascii "POST"; uri = ascii "a.test"; headers = moved; content = 7 }

abbrev behind_hop : Parts Text (Text → List Text) ℕ
behind_hop = record {
  verb = ascii "GET";
  uri = ascii "b.test";
  headers = hop_headers hosts plain to_b moved;
  content = 0;
}

get_all-rebuild_example :
    (behind_hop.verb ≡ to_b.verb)
    × (◌≡◌ {A = ℕ} behind_hop.content 0)
    × ((n : Text)
        → plain.get_all n behind_hop.headers
          ≡ (if is_left_behind hosts plain to_b n then [] else plain.get_all n before_hop.headers))
unfolding rebuild
get_all-rebuild_example = get_all-rebuild hosts plain any_uri before_hop behind_hop to_b 0 refl
