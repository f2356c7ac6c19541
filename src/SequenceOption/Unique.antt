-- ===== src/SequenceOption/Unique.antt =====
-- `get_sequence` gives the sequence of the option that matches, if it is the only one.
use oca_server_tools.Common.{
  ℕ, ◌≡◌, refl, ◌∙◌, String, Bool, Option, none, some, List, [], ◌∷◌, keep, Bool-cases, inl, inr,
}
use oca_server_tools.Common.Action.{Result, ok, err}
use oca_server_tools.SequenceOption.{
  OptionLine, Target, Error, multiple_sequences, get_model_options, company_or, given_or,
  of_company, find_sequence, get_sequence,
}

-- What the options that match say: nothing, the sequence of the only one, or that there are several.
abbrev pub verdict : List OptionLine → Result Error (Option ℕ)
verdict [] = ok none
verdict (o ∷ []) = ok (some o.sequence_id)
verdict (o ∷ p ∷ more) = err multiple_sequences

-- The same, where a sequence was found before
abbrev verdict_after : Option ℕ → List OptionLine → Result Error (Option ℕ)
verdict_after none os = verdict os
verdict_after (some sequence) [] = ok (some sequence)
verdict_after (some sequence) (o ∷ os) = err multiple_sequences

module _ (holds : String → Bool) where
  abbrev evaluated : String → Result Error Bool
  evaluated domain = ok (holds domain)

  find_sequence-verdict :
      (os : List OptionLine) (sequence : Option ℕ)
      → find_sequence evaluated os sequence
        ≡ verdict_after sequence (keep (λ o. holds o.filter_domain) os)
  unfolding find_sequence
  find_sequence-verdict [] none = refl
  find_sequence-verdict [] (some sequence) = refl
  find_sequence-verdict (o ∷ os) none = elim (Bool-cases (holds o.filter_domain)) [
    | inl y ↦ rw y (
        find_sequence-verdict os (some o.sequence_id)
        ∙ after (keep (λ o. holds o.filter_domain) os))
    | inr n ↦ rw n (find_sequence-verdict os none)
  ]
    where
      after :
          (rest : List OptionLine) → verdict_after (some o.sequence_id) rest ≡ verdict (o ∷ rest)
      after [] = refl
      after (p ∷ rest) = refl
  find_sequence-verdict (o ∷ os) (some sequence) = elim (Bool-cases (holds o.filter_domain)) [
    | inl y ↦ rw y refl
    | inr n ↦ rw n (find_sequence-verdict os (some sequence))
  ]

  -- Where the evaluation of no domain raises: of the options given, or else those of the record's model that are in
  -- use, take those of the record's company, or else the user's, that match the record. With none of them the
  -- result is no sequence, with one of them its sequence, and with several an error.
  pub get_sequence-verdict :
      (table : List OptionLine) (env_company : ℕ) (target : Target) (options : List OptionLine)
      → get_sequence (λ domain. ok (holds domain)) table env_company target options
        ≡ verdict (
            keep
              (λ o. holds o.filter_domain)
              (of_company
                (company_or target.company_id env_company)
                (given_or options (get_model_options table target.model))))
  unfolding get_sequence
  get_sequence-verdict table env_company target options =
      find_sequence-verdict
        (of_company (company_or target.company_id env_company)
          (given_or options (get_model_options table target.model)))
        none
