-- ===== src/Proxy/ListText.antt =====
-- proxy/handler.go: which lists of models have the same ETag.
use llm_server_manager.Base.{
  ◌≡◌, refl, sym, ap, ◌∙◌, ◌↔◌, ◌≢◌, String, eq_iff, false, List, [], ◌∷◌, ◌++◌, ℕ, eqb, is_digit,
  All, All-mono, decimal, arith, true,
}
use llm_server_manager.Fleet.PortText.{digits_value-decimal}
use llm_server_manager.Fleet.Port.{digits_value}
use llm_server_manager.Metrics.Words.{decimal_digits}
use llm_server_manager.Handlers.Etag.{quoted}
use llm_server_manager.Handlers.EtagText.{etag_matches-Whole, quoted-Whole}
use llm_server_manager.Proxy.Table.{PublishedModel}
use llm_server_manager.Proxy.Listing.{etag_input, models_etag, unchanged, listed, answer_list}

-- No byte 0.
abbrev pub Terminable : List ℕ → Type 0
Terminable s = All (λ c. eqb c 0 ≡ false) s

terminated_inj :
    (w v s t : List ℕ) → Terminable w → Terminable v → w ++ 0 ∷ s ≡ v ++ 0 ∷ t → (w ≡ v) × (s ≡ t)
terminated_inj [] [] s t h k e = (refl, cc)
terminated_inj [] (d ∷ v) s t h k e = let z : 0 ≡ d = cc in ground (arith, z, k.0)
terminated_inj (c ∷ w) [] s t h k e = let z : c ≡ 0 = cc in ground (arith, z, h.0)
terminated_inj (c ∷ w) (d ∷ v) s t h k e =
    let (same, rest) = terminated_inj w v s t h.1 k.1 (cc) in let z : c ≡ d = cc in (cc, rest)

digit_nonzero : (c : ℕ) → is_digit c ≡ true → eqb c 0 ≡ false
digit_nonzero c h = ground arith

decimal-Terminable : (n : ℕ) → Terminable (decimal n)
decimal-Terminable n = All-mono (decimal n) digit_nonzero (decimal_digits n)

decimal_inj : (m n : ℕ) → decimal m ≡ decimal n → m ≡ n
decimal_inj m n e = sym (digits_value-decimal m) ∙ ap (digits_value 0) e ∙ digits_value-decimal n

not_ended : (w : List ℕ) (c : ℕ) (s : List ℕ) → [] ≢ w ++ c ∷ s
not_ended [] c s e = cc
not_ended (d ∷ w) c s e = cc

module _ (bytes : String → List ℕ) (bytes_inj : (s t : String) → bytes s ≡ bytes t → s ≡ t) where
  etag_input_inj :
      (ms ns : List PublishedModel)
      → All (λ m. Terminable (bytes m.id)) ms
      → All (λ m. Terminable (bytes m.id)) ns
      → etag_input bytes ms ≡ etag_input bytes ns
      → ms ≡ ns
  unfolding etag_input
  etag_input_inj [] [] h k e = refl
  etag_input_inj [] (n ∷ ns) h k e =
      absurd (not_ended (bytes n.id) 0 (decimal n.created ++ 0 ∷ etag_input bytes ns) e)
  etag_input_inj (m ∷ ms) [] h k e =
      absurd (not_ended (bytes m.id) 0 (decimal m.created ++ 0 ∷ etag_input bytes ms) (sym e))
  etag_input_inj (m ∷ ms) (n ∷ ns) h k e =
      let (ids, behind) =
        terminated_inj (bytes m.id) (bytes n.id) (decimal m.created ++ 0 ∷ etag_input bytes ms)
          (decimal n.created ++ 0 ∷ etag_input bytes ns) h.0 k.0 e in
      let (times, rest) =
        terminated_inj (decimal m.created) (decimal n.created) (etag_input bytes ms)
          (etag_input bytes ns) (decimal-Terminable m.created) (decimal-Terminable n.created)
          behind in
      let same_id = bytes_inj m.id n.id ids in
      let same_time = decimal_inj m.created n.created times in
      let same_rest = etag_input_inj ms ns h.1 k.1 rest in cc

  -- Where no ID holds a byte 0 and the sum tells the two lists apart if they differ, a client that sends
  -- the ETag of the list ms gets the answer that nothing changed exactly if the list is still ms, with
  -- the same IDs in the same order and the same start times; otherwise it gets the new list.
  pub answer_list-models_etag :
      (sum : List ℕ → List ℕ) (ms ns : List PublishedModel)
      → All (λ m. Terminable (bytes m.id)) ms
      → All (λ m. Terminable (bytes m.id)) ns
      → (quoted (sum (etag_input bytes ms)) ≡ quoted (sum (etag_input bytes ns))
          → etag_input bytes ms ≡ etag_input bytes ns)
      → let etag = models_etag bytes sum in
        let answer = answer_list (etag ns) (etag ms) ns in
        ((answer ≡ unchanged (etag ns)) ↔ (ms ≡ ns)) × (ms ≢ ns → answer ≡ listed (etag ns) ns)
  unfolding models_etag answer_list
  answer_list-models_etag sum ms ns h k no_clash =
      let old = quoted (sum (etag_input bytes ms)) in
      let new = quoted (sum (etag_input bytes ns)) in
      let found = etag_matches-Whole old new (quoted-Whole (sum (etag_input bytes ms))) in
      let same : old ≡ new → ms ≡ ns = λ e. etag_input_inj ms ns h k (no_clash e) in
      let back : ms ≡ ns → old ≡ new = ap (λ ls. quoted (sum (etag_input bytes ls))) in
      (
        (
          λ e. same (ground (arith, found, eq_iff old new)),
          λ e. ground (arith, found, back e, eq_iff old new),
        ),
        λ n. ground (arith, found, eq_iff old new, same, n),
      )
