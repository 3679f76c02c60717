-- ===== src/Tests/Storage.antt =====
-- The store at concrete inputs.
use agent_town.Prelude.{◌≡◌, refl, List, [], ◌∷◌}
use agent_town.Result.{err, company_not_found}
use agent_town.Storage.Journal.{Write, write, status_set, company_created}
use agent_town.Storage.Journal.Effects.{write-atomic}
use agent_town.Storage.Journal.Order.{IsJournal, Grows, write_all, write_all-Grows}
use agent_town.Tests.Fixture.{blank, company, event}
use agent_town.Storage.Companies.{set_company_status}
use agent_town.Storage.Transaction.{transact}
use agent_town.Prelude.Table.{lookup}

abbrev script : List Write
script =
    company_created "c" company (event "e1") "t1"
    ∷ status_set "c" "running" (event "e1") "t2"
    ∷ status_set "c" "running" (event "e2") "t3"
    ∷ []

pub blank-IsJournal : IsJournal blank
blank-IsJournal = record { numbered = tt; counted = refl }

write_all-Grows_example : Grows blank (write_all script blank)
write_all-Grows_example = write_all-Grows script blank blank-IsJournal

missing_company :
    (write (status_set "c" "running" (event "e1") "t") blank).0 ≡ err (company_not_found "c")
unfolding write set_company_status transact lookup
missing_company = refl

write-atomic_example : (write (status_set "c" "running" (event "e1") "t") blank).1 ≡ blank
write-atomic_example =
    write-atomic (status_set "c" "running" (event "e1") "t") blank (company_not_found "c")
      missing_company
