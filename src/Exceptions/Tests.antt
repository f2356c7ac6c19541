-- ===== src/Exceptions/Tests.antt =====
-- Sample rules and records, and the theorems applied to them.
use oca_server_tools.Common.{◌≡◌, refl, true, false, some, [], ◌∷◌, inl, inr, ◌==◌, if◌then◌else◌}
use oca_server_tools.Common.Action.{ok}
use oca_server_tools.Exceptions.{
  by_domain, by_py_code, RuleInfo, Rules, Db, detect, detect_exceptions, check_exception,
}
use oca_server_tools.Exceptions.Detected.{
  detect_exceptions-IsLinked, check_exception-clear, IsLinked,
}

abbrev no_zip : RuleInfo
no_zip = record { id = 1; name = "no zip"; exception_type = by_py_code; is_blocking = false }

abbrev no_mail : RuleInfo
no_mail = record { id = 2; name = "no mail"; exception_type = by_domain; is_blocking = true }

-- The code of the first rule fails on the record 7, the domain of the second matches the record 8.
abbrev rules : Rules
rules = record {
  failed = λ rule r. some (r == 7);
  in_domain = λ rule r. r == 8;
  method = λ rule recs. [];
}

abbrev before : Db
before = record {
  exception_ids = λ r. if r == 9 then 1 ∷ [] else 2 ∷ [];
  ignore_exception = λ r. false;
}

abbrev after : Db
unfolding detect_exceptions
after = (detect_exceptions rules (no_zip ∷ no_mail ∷ []) (7 ∷ 8 ∷ []) before).1

links_after : after.exception_ids 7 ≡ 1 ∷ []
unfolding detect_exceptions detect
links_after = refl

detect_exceptions-IsLinked_example : IsLinked rules (7 ∷ 8 ∷ []) no_mail before (1 ∷ 2 ∷ []) after
unfolding detect_exceptions detect
detect_exceptions-IsLinked_example =
    detect_exceptions-IsLinked rules before (7 ∷ 8 ∷ []) (no_zip ∷ no_mail ∷ []) (1 ∷ 2 ∷ []) after
      no_mail (refl, (refl, tt)) (inr (inl refl)) refl

-- On the record 6 no rule applies.
check_exception-clear_example : detect rules before (6 ∷ []) no_zip ≡ ok []
unfolding check_exception detect
check_exception-clear_example =
    check_exception-clear rules before (6 ∷ []) (no_zip ∷ no_mail ∷ []) false
      (check_exception rules true true (no_zip ∷ no_mail ∷ []) (6 ∷ []) before).1 no_zip
      (refl, (refl, tt)) (inl refl) refl
