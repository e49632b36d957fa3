-- ===== src/Handlers/AtomicWrite.antt =====
-- handlers/handlers.go: writeConfigFileAtomic, over a directory with the file and one temporary file.
-- Each call of the operating system may fail, and the program may crash before any of them.
use llm_server_manager.Base.{
  ◌≡◌, ◌⊎◌, Bool, true, false, String, Option, none, some, List, [], ◌∷◌, ℕ, zero, suc, arith,
}

pub record Directory : Type 0 where
  pub file : Option String
  pub temporary : Option String

-- The calls after the temporary file was made, in the order of the source.
pub data Call : Type 0 where
  create write sync close chmod rename : Call

pub data Outcome : Type 0 where
  succeeds fails : Outcome

succeed : String → Call → Directory → Directory
succeed body create d = record d { temporary = some "" }
succeed body write d = record d { temporary = some body }
succeed body rename d = record { file = d.temporary; temporary = none }
succeed body _ d = d

-- The first call that fails ends the function; after it was created, the temporary file is removed.
fail : Call → Directory → Directory
fail create d = d
fail _ d = record d { temporary = none }

-- Runs the calls until one fails, which removes the temporary file, or until the program crashes after
-- `steps` calls. The result says whether the function returned without an error.
unfoldable pub run_calls : String → List (Call × Outcome) → ℕ → Directory → Directory × Bool
unfolding succeed fail
run_calls body [] steps d = (d, true)
run_calls body ((c, o) ∷ cs) zero d = (d, false)
run_calls body ((c, succeeds) ∷ cs) (suc steps) d = run_calls body cs steps (succeed body c d)
run_calls body ((c, fails) ∷ cs) (suc steps) d = (fail c d, false)

-- What each of the calls does.
pub record Outcomes : Type 0 where
  pub at_create : Outcome
  pub at_write : Outcome
  pub at_sync : Outcome
  pub at_close : Outcome
  pub at_chmod : Outcome
  pub at_rename : Outcome

unfoldable pub write_atomic : Outcomes → String → ℕ → Directory → Directory × Bool
unfolding run_calls
write_atomic o body steps d =
    run_calls body
      ((create, o.at_create)
        ∷ (write, o.at_write)
        ∷ (sync, o.at_sync)
        ∷ (close, o.at_close)
        ∷ (chmod, o.at_chmod)
        ∷ (rename, o.at_rename)
        ∷ [])
      steps d

-- Whatever fails, and wherever the program crashes, the configuration file is the old one or holds all
-- of the new content. If the function returns without an error it is the new one.
pub write_atomic_lem :
    (o : Outcomes) (body : String) (steps : ℕ) (d : Directory)
    → let (d', done) = write_atomic o body steps d in
      ((d'.file ≡ d.file) ⊎ (d'.file ≡ some body)) × (done ≡ true → d'.file ≡ some body)
unfolding write_atomic
write_atomic_lem o body zero d = ground arith
write_atomic_lem o body (suc zero) d = ground arith
write_atomic_lem o body (suc (suc zero)) d = ground arith
write_atomic_lem o body (suc (suc (suc zero))) d = ground arith
write_atomic_lem o body (suc (suc (suc (suc zero)))) d = ground arith
write_atomic_lem o body (suc (suc (suc (suc (suc zero))))) d = ground arith
write_atomic_lem o body (suc (suc (suc (suc (suc (suc n)))))) d = ground arith
