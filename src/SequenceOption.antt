-- ===== src/SequenceOption.antt =====
-- base_sequence_option: the sequence that the options give a record (models/ir_sequence_option.py), and the numbers that
-- are taken from it (models/ir_sequence.py).
pub mod Unique
mod Tests
use oca_server_tools.Common.{
  ℕ, ◌==◌, String, Bool, true, false, ◌&&◌, Option, none, some, List, [], ◌∷◌, str_eq, keep,
  if◌then◌else◌, or_else,
}
use oca_server_tools.Common.Action.{Result, ok, err, and_then}

-- A record of `ir.sequence.option.line`
pub record OptionLine : Type 0 where
  pub use_sequence_option : Bool
  pub model : String
  pub company_id : ℕ
  pub filter_domain : String
  pub sequence_id : ℕ

-- The record that wants a number: its model, and its company where it has one
pub record Target : Type 0 where
  pub model : String
  pub company_id : Option ℕ

-- `ValidationError`, and what the evaluation of a domain raises
pub data Error : Type 0 where
  multiple_sequences : Error
  raised : String → Error

-- `get_model_options`
unfoldable pub get_model_options : List OptionLine → String → List OptionLine
get_model_options table model = keep (λ o. o.use_sequence_option && str_eq o.model model) table

abbrev pub company_or : Option ℕ → ℕ → ℕ
company_or none company = company
company_or (some company) _ = company

-- `if not options:`
abbrev pub given_or : List OptionLine → List OptionLine → List OptionLine
given_or [] found = found
given_or (o ∷ os) found = o ∷ os

-- `options.filtered(lambda l: l.company_id == company)`
abbrev pub of_company : ℕ → List OptionLine → List OptionLine
of_company company options = keep (λ o. o.company_id == company) options

-- `if sequence:` and the assignment
abbrev pub take_sequence : Option ℕ → ℕ → Result Error (Option ℕ)
take_sequence none found = ok (some found)
take_sequence (some sequence) found = err multiple_sequences

abbrev pub take_if : Bool → Option ℕ → ℕ → Result Error (Option ℕ)
take_if false sequence found = ok sequence
take_if true sequence found = take_sequence sequence found

-- `matches` evaluates a domain and filters the record by it.
module _ (matches : String → Result Error Bool) where
  -- The loop of `get_sequence`
  unfoldable pub find_sequence : List OptionLine → Option ℕ → Result Error (Option ℕ)
  find_sequence [] sequence = ok sequence
  find_sequence (o ∷ os) sequence =
      and_then (matches o.filter_domain)
        λ here. and_then (take_if here sequence o.sequence_id) λ sequence. find_sequence os sequence

  -- `get_sequence`
  unfoldable pub get_sequence :
      List OptionLine → ℕ → Target → List OptionLine → Result Error (Option ℕ)
  unfolding find_sequence get_model_options
  get_sequence table env_company target options =
      find_sequence
        (of_company (company_or target.company_id env_company)
          (given_or options (get_model_options table target.model)))
        none

-- `next_by_id` with the context's `sequence_option_id`, of the sequence `own`
unfoldable pub next_by_id : {A : Type 0} → (ℕ → A) → Option ℕ → ℕ → A
next_by_id origin none own = origin own
next_by_id origin (some sequence_id) own = origin sequence_id

-- `next_by_code` with the context's `sequence_option_id`
unfoldable pub next_by_code : {A : Type 0} → (ℕ → A) → (String → A) → Option ℕ → String → A
next_by_code origin origin_by_code none sequence_code = origin_by_code sequence_code
next_by_code origin origin_by_code (some sequence_id) sequence_code = origin sequence_id
