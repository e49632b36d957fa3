-- ===== src/Handlers/EtagText.antt =====
-- handlers/handlers.go: the ETag that configETag makes is one that etagMatches finds.
use Prim.Native.Char.{Char, code}
use Prim.Native.String
use text.Mathlib.TextLemmas.{nil-append, cons-append, append-nil, append_assoc}
use llm_server_manager.Base.{
  ◌≡◌, refl, sym, ap, subst, ◌∙◌, ◌≢◌, true, false, String, ◌==◌, eq_iff, eq_refl, none, List, [],
  ◌∷◌, ℕ, zero, suc, ◌/◌, ◌%◌, eqb, is_some, is_space, get_elem?, from_option, trim_space,
  trim_left, trim_right, trim_prefix, strip_prefix?, split_at, split_from, All, arith,
}
use llm_server_manager.Handlers.Etag.{etag_matches, hex_digit, hex, quoted, config_etag}
use llm_server_manager.Handlers.SaveConfig.{content, check_if_match, get_config, not_modified, full}

-- No space and no comma.
abbrev Solid : String → Type 0
Solid String.[] = Unit
Solid (String.◌∷◌ c s) = (is_space (code c) ≡ false) × (eqb (code c) b',' ≡ false) × Solid s

Solid-append : (s t : String) → Solid s → Solid t → Solid (String.◌++◌ s t)
Solid-append String.[] t h k = subst Solid (sym (nil-append t)) k
Solid-append (String.◌∷◌ c s) t h k =
    subst Solid (sym (cons-append c s t)) (h.0, h.1, Solid-append s t h.2 k)

trim_left-Solid : (s : String) → Solid s → trim_left s ≡ s
unfolding trim_left
trim_left-Solid String.[] h = refl
trim_left-Solid (String.◌∷◌ c s) h = ground (arith, h.0)

trim_right-Solid : (s : String) → Solid s → trim_right is_space s ≡ s
unfolding trim_right
trim_right-Solid String.[] h = refl
trim_right-Solid (String.◌∷◌ c s) h = ground (arith, h.0, trim_right-Solid s h.2)

trim_space-Solid : (s : String) → Solid s → trim_space s ≡ s
unfolding trim_space
trim_space-Solid s h = ap (trim_right is_space) (trim_left-Solid s h) ∙ trim_right-Solid s h

from_table : (xs : List String) (n : ℕ) → All Solid xs → Solid (from_option "0" (get_elem? xs n))
from_table [] n h = (refl, refl, tt)
from_table (x ∷ xs) zero h = h.0
from_table (x ∷ xs) (suc n) h = from_table xs n h.1

hex_digit-Solid : (n : ℕ) → Solid (hex_digit n)
hex_digit-Solid n =
    let d : Solid "0" = (refl, refl, tt) in
    from_table
      ("0" ∷ "1" ∷ "2" ∷ "3" ∷ "4" ∷ "5" ∷ "6" ∷ "7" ∷ "8" ∷ "9" ∷ "a" ∷ "b" ∷ "c" ∷ "d" ∷ "e" ∷ "f"
        ∷ [])
      n
      (
        (refl, refl, tt),
        (
          (refl, refl, tt),
          (
            (refl, refl, tt),
            (
              (refl, refl, tt),
              (
                (refl, refl, tt),
                (
                  (refl, refl, tt),
                  (
                    (refl, refl, tt),
                    (
                      (refl, refl, tt),
                      (
                        (refl, refl, tt),
                        (
                          (refl, refl, tt),
                          (
                            (refl, refl, tt),
                            (
                              (refl, refl, tt),
                              (
                                (refl, refl, tt),
                                ((refl, refl, tt), ((refl, refl, tt), ((refl, refl, tt), tt))),
                              ),
                            ),
                          ),
                        ),
                      ),
                    ),
                  ),
                ),
              ),
            ),
          ),
        ),
      )

hex-Solid : (count : ℕ) (bytes : List ℕ) → Solid (hex count bytes)
unfolding hex
hex-Solid zero bytes = tt
hex-Solid (suc count) [] = tt
hex-Solid (suc count) (b ∷ bytes) =
    Solid-append (hex_digit (b / 16)) (String.◌++◌ (hex_digit (b % 16)) (hex count bytes))
      (hex_digit-Solid (b / 16))
      (Solid-append (hex_digit (b % 16)) (hex count bytes) (hex_digit-Solid (b % 16))
        (hex-Solid count bytes))

append_one :
    (cur : String) (c : Char) (s : String)
    → String.◌++◌ (String.◌++◌ cur (String.◌∷◌ c "")) s ≡ String.◌++◌ cur (String.◌∷◌ c s)
append_one cur c s =
    append_assoc cur (String.◌∷◌ c "") s
    ∙ ap (String.◌++◌ cur) (cons-append c "" s ∙ ap (String.◌∷◌ c) (nil-append s))

split_from-Solid : (cur s : String) → Solid s → split_from b',' cur s ≡ String.◌++◌ cur s ∷ []
unfolding split_from
split_from-Solid cur String.[] h = ap (λ t. t ∷ []) (sym (append-nil cur))
split_from-Solid cur (String.◌∷◌ c s) h =
    ground
      (arith, h.1, split_from-Solid (String.◌++◌ cur (String.◌∷◌ c "")) s h.2, append_one cur c s)

split_at-Solid : (s : String) → Solid s → split_at b',' s ≡ s ∷ []
unfolding split_at
split_at-Solid s h = split_from-Solid "" s h ∙ ap (λ t. t ∷ []) (nil-append s)

-- A text that is one part of a header's list, as it stands.
pub record Whole (e : String) : Type 0 where
  solid : Solid e
  strong : trim_prefix "W/" e ≡ e
  nonempty : e ≢ ""
  no_star : e ≢ "*"

pub etag_matches-Whole : (e f : String) → Whole e → etag_matches e f ≡ (e == f)
unfolding etag_matches
etag_matches-Whole e f w = ground (
  arith,
  trim_space-Solid e w.solid,
  split_at-Solid e w.solid,
  ap (λ t. trim_prefix "W/" t == f) (trim_space-Solid e w.solid) ∙ ap (λ t. t == f) w.strong,
  eq_iff e "",
  eq_iff e "*",
  w.nonempty,
  w.no_star,
)

no_header : (e : String) → etag_matches "" e ≡ false
unfolding etag_matches trim_space trim_left trim_right
no_header e = refl

pub quoted-Whole : (bytes : List ℕ) → Whole (quoted bytes)
unfolding quoted trim_prefix strip_prefix?
quoted-Whole bytes = record {
  solid = (refl, refl, Solid-append (hex 16 bytes) "\"" (hex-Solid 16 bytes) (refl, refl, tt));
  strong = refl;
  nonempty =
      λ e. let b : true ≡ false = ap (λ t. is_some (strip_prefix? "\"" t)) e in ground (arith, b);
  no_star =
      λ e. let b : true ≡ false = ap (λ t. is_some (strip_prefix? "\"" t)) e in ground (arith, b);
}

names_itself : (bytes : List ℕ) → etag_matches (quoted bytes) (quoted bytes) ≡ true
names_itself bytes =
    etag_matches-Whole (quoted bytes) (quoted bytes) (quoted-Whole bytes) ∙ eq_refl (quoted bytes)

-- The ETag that GetConfig sends for a file is accepted as If-Match by a save on the same content, and
-- as If-None-Match it gets the answer that nothing changed; a request without a header gets the file
-- with that ETag.
pub config_etag-accepted :
    (sum : String → List ℕ) (d : String)
    → (get_config (config_etag sum) "" (content d) ≡ full (config_etag sum d) d)
      × (get_config (config_etag sum) (config_etag sum d) (content d)
          ≡ not_modified (config_etag sum d))
      × (check_if_match (config_etag sum) (config_etag sum d) (content d) ≡ none)
unfolding get_config check_if_match config_etag
config_etag-accepted sum d = (
  ground (arith, no_header (quoted (sum d))),
  ground (arith, names_itself (sum d)),
  ground
      (arith, names_itself (sum d), trim_space-Solid (quoted (sum d)) (quoted-Whole (sum d)).solid),
)
