-- ===== src/SequenceOption/Tests.antt =====
-- Two options of a model, of two companies, and the theorem applied to them.
use oca_server_tools.Common.{ℕ, ◌≡◌, refl, String, Bool, true, some, List, [], ◌∷◌, str_eq, keep}
use oca_server_tools.Common.Action.{ok}
use oca_server_tools.SequenceOption.{
  OptionLine, Target, get_model_options, company_or, given_or, of_company, get_sequence,
}
use oca_server_tools.SequenceOption.Unique.{verdict, get_sequence-verdict}

abbrev line : ℕ → String → ℕ → OptionLine
line company domain sequence = record {
  use_sequence_option = true;
  model = "sale.order";
  company_id = company;
  filter_domain = domain;
  sequence_id = sequence;
}

abbrev lines : List OptionLine
lines = line 1 "[]" 10 ∷ line 2 "[]" 20 ∷ line 1 "no" 30 ∷ []

abbrev all_but_no : String → Bool
all_but_no domain = str_eq domain "[]"

abbrev order : Target
order = record { model = "sale.order"; company_id = some 1 }

found : get_sequence (λ domain. ok (all_but_no domain)) lines 2 order [] ≡ ok (some 10)
unfolding get_sequence
found = refl

get_sequence-verdict_example :
    get_sequence (λ domain. ok (all_but_no domain)) lines 2 order []
    ≡ verdict (
        keep
          (λ o. all_but_no o.filter_domain)
          (of_company
            (company_or order.company_id 2)
            (given_or [] (get_model_options lines order.model))))
get_sequence-verdict_example = get_sequence-verdict all_but_no lines 2 order []
