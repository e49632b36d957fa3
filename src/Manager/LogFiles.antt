-- ===== src/Manager/LogFiles.antt =====
-- manager/manager.go: which log files are open, and what goes wrong with two launchers.
use llm_server_manager.Base.{
  ◌≡◌, refl, true, false, none, some, List, [], ◌∷◌, ◌++◌, ℕ, ◌<◌, eqb, any, codes, All, All-append,
  arith, map, ◌+◌, is_some,
}
use llm_server_manager.Manager.Logs.{
  Logs, close_handle, LogStep, tests, shuts, creates, assigns, give, no_slash, log_file_name,
}

-- All handles come before the next one.
record Before (l : Logs) : Type 0 where
  current : (h : ℕ) → l.current ≡ some h → h < l.next
  opened : (i h : ℕ) → l.opened i ≡ some h → h < l.next
  closed : All (λ h. h < l.next) l.closed

-- Two launchers that are at the head of their loops together.
abbrev pub both_prepare : ℕ → ℕ → List (ℕ × LogStep)
both_prepare i j =
    (i, tests)
    ∷ (i, shuts)
    ∷ (j, tests)
    ∷ (j, shuts)
    ∷ (i, creates true)
    ∷ (j, creates true)
    ∷ (i, assigns)
    ∷ (j, assigns)
    ∷ []

-- What the steps of one launcher leave behind.
abbrev shut : ℕ → Logs → Logs
shut i l = record l {
  found = give i (is_some l.current) l.found;
  closed = close_handle l.current l.closed;
}

abbrev created : ℕ → Logs → Logs
created i l = record l { next = l.next + 1; opened = give i (some l.next) l.opened }

abbrev assigned : ℕ → ℕ → Logs → Logs
assigned i h l = record l { current = some h; stdout = give i (some h) l.stdout }

module _ (l : Logs) (i j : ℕ) (b : Before l) where
  -- The handles that are closed once whatever is current was closed.
  abbrev shut_handles : List ℕ
  shut_handles = close_handle l.current l.closed

  abbrev prepared : Logs
  prepared = assigned i l.next (created i (shut i l))

  abbrev closed_by : Logs
  closed_by = record (shut j prepared) { current = none }

  abbrev both_shut : Logs
  both_shut = created j (created i (shut j (shut i l)))

  abbrev both_prepared : Logs
  both_prepared = assigned j (l.next + 1) (assigned i l.next both_shut)

abbrev pub NoSlash : List ℕ → Type 0
NoSlash s = All (λ c. eqb c b'/' ≡ false) s

without : (s : List ℕ) → any (λ c. eqb c b'/') s ≡ false → NoSlash s
without [] h = tt
without (c ∷ s) h = (ground (arith, h), without s (ground (arith, h)))

replaced : (s : List ℕ) → NoSlash (map no_slash s)
replaced [] = tt
replaced (c ∷ s) = (ground arith, replaced s)

-- The name of the log file stays in its directory, whatever the model's name is.
pub log_file_name-NoSlash :
    (model_name stamp : List ℕ) → NoSlash stamp → NoSlash (log_file_name model_name stamp)
unfolding log_file_name
log_file_name-NoSlash model_name stamp clean =
    let append = All-append (λ c. eqb c b'/' ≡ false) in
    append (codes "llama-server-") (map no_slash model_name ++ (b'-' ∷ (stamp ++ codes ".log")))
      (without (codes "llama-server-") refl)
      (append (map no_slash model_name) (b'-' ∷ (stamp ++ codes ".log")) (replaced model_name)
        (refl, append stamp (codes ".log") clean (without (codes ".log") refl)))
