-- ===== src/Http/Client/Mapping.antt =====
-- Which responses `Send` reports as errors, for a client with several mappings of codes.
use go_service_template.Common.{
  ℕ, zero, suc, ◌≡◌, refl, ap, sym, ◌∙◌, inl, inr, nat_eq, Bool, true, false, not, Option, none,
  some, List, [], ◌∷◌, ◌++◌, map, Error, ok, Option-cases,
}
use go_service_template.Common.Assoc.{lookup}
use go_service_template.Http.Client.{
  Response, ResponseMiddleware, ClientState, apply_options, new_client, map_response_code,
  with_response_code_mapping, run_middlewares, send,
}

abbrev pub is_some : {A : Type 0} → Option A → Bool
is_some none = false
is_some (some a) = true

abbrev pub odd : ℕ → Bool
odd zero = false
odd (suc n) = not (odd n)

abbrev pub count_on : {A : Type 0} → Option A → ℕ → ℕ
count_on none n = 0
count_on (some a) n = suc n

-- How many of the last tables, without a gap, map the code, after `n` that do; an empty table is no mapping.
abbrev pub streak : ℕ → ℕ → List (List (ℕ × Error)) → ℕ
streak code n [] = n
streak code n ([] ∷ tables) = streak code n tables
streak code n ((c ∷ codes) ∷ tables) = streak code (count_on (lookup code (c ∷ codes)) n) tables

module _ {B : Type 0} where
  run_middlewares-append :
      (mws others : List (ResponseMiddleware B)) (resp : Response B) (error : Option Error)
      → run_middlewares (mws ++ others) resp error
        ≡ run_middlewares others resp (run_middlewares mws resp error)
  unfolding run_middlewares
  run_middlewares-append [] others resp error = refl
  run_middlewares-append (mw ∷ mws) others resp error =
      run_middlewares-append mws others resp (mw resp error)

  map_response_code-odd :
      (codes : List (ℕ × Error)) (resp : Response B) (error : Option Error) (n : ℕ)
      → is_some error ≡ odd n
      → is_some (map_response_code codes resp error)
        ≡ odd (count_on (lookup resp.status_code codes) n)
  unfolding map_response_code
  map_response_code-odd codes resp none n h = elim (Option-cases (lookup resp.status_code codes)) [
    | inl l ↦ rw (l)
    | inr (e, l) ↦ rw (l, sym h)
  ]
  map_response_code-odd codes resp (some f) n h =
      elim (Option-cases (lookup resp.status_code codes)) [
        | inl l ↦ rw (l)
        | inr (e, l) ↦ rw (l, sym h)
      ]

module _ {R B : Type 0} (resp : Response B) where
  apply_options-odd :
      (tables : List (List (ℕ × Error))) (client : ClientState R B) (n : ℕ)
      → is_some (run_middlewares client.response_middlewares resp none) ≡ odd n
      → is_some (
          run_middlewares
            (apply_options (map with_response_code_mapping tables) client).response_middlewares
            resp
            none)
        ≡ odd (streak resp.status_code n tables)
  unfolding apply_options with_response_code_mapping run_middlewares
  apply_options-odd [] client n h = h
  apply_options-odd ([] ∷ tables) client n h = apply_options-odd tables client n h
  apply_options-odd ((c ∷ codes) ∷ tables) client n h =
      apply_options-odd tables (with_response_code_mapping (c ∷ codes) client)
        (count_on (lookup resp.status_code (c ∷ codes)) n)
        (ap is_some (
            run_middlewares-append client.response_middlewares (map_response_code (c ∷ codes) ∷ [])
              resp none)
          ∙ map_response_code-odd (c ∷ codes) resp
              (run_middlewares client.response_middlewares resp none) n h)

  -- A client whose options are mappings of codes reports an error for a response exactly if the number of
  -- its last mappings, without a gap, that map the code of the response is odd: a mapping after one that
  -- has reported an error drops this error.
  pub send-odd :
      (blank : R) (tables : List (List (ℕ × Error)))
      → is_some
          (send
            (new_client {B = B} blank
              (map with_response_code_mapping tables)).state.response_middlewares
            (ok resp)).1
        ≡ odd (streak resp.status_code 0 tables)
  unfolding send new_client
  send-odd blank tables = apply_options-odd tables _ 0 refl
