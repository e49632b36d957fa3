-- ===== src/Manager/Logs.antt =====
-- manager/manager.go: the log file of llama-server, which launchServer opens and closes and createLogFile names. A
-- handle is a number. The launchers share sm.logFile, and no mutex guards it: each reading and each writing of
-- it is a step of its own, and the steps of all come in any order.
use llm_server_manager.Base.{
  Bool, true, false, not, Option, none, some, List, [], ◌∷◌, ◌++◌, ℕ, ◌+◌, eqb, if◌then◌else◌, any,
  codes, map, is_some,
}

-- `current` is sm.logFile, `next` the number of the next handle, and `closed` are the handles that were
-- closed. Of each launcher, `found` says whether its last test saw a file, `opened` is the variable
-- logFile, and `stdout` is what its command writes to.
pub record Logs : Type 0 where
  pub current : Option ℕ
  pub closed : List ℕ
  pub next : ℕ
  pub found : ℕ → Bool
  pub opened : ℕ → Option ℕ
  pub stdout : ℕ → Option ℕ

abbrev pub is_closed : ℕ → Logs → Bool
is_closed h l = any (eqb h) l.closed

abbrev pub close_handle : Option ℕ → List ℕ → List ℕ
close_handle none closed = closed
close_handle (some h) closed = h ∷ closed

abbrev pub give {ℓ} : {A : Type ℓ} → ℕ → A → (ℕ → A) → ℕ → A
give i x f j = if eqb i j then x else f j

pub data LogStep : Type 0 where
  -- sm.logFile != nil
  tests : LogStep
  -- sm.logFile.Close(), if the test saw a file; closing nil does nothing
  shuts : LogStep
  -- createLogFile, and whether it succeeds
  creates : Bool → LogStep
  -- sm.logFile = logFile and cmd.Stdout = logFile, if that succeeded
  assigns : LogStep
  -- sm.logFile = nil, if the test saw a file
  releases : LogStep

unfoldable pub log_step : ℕ → LogStep → Logs → Logs
log_step i tests l = record l { found = give i (is_some l.current) l.found }
log_step i shuts l = if l.found i then record l { closed = close_handle l.current l.closed } else l
log_step i (creates true) l = record l { next = l.next + 1; opened = give i (some l.next) l.opened }
log_step i (creates false) l = record l { opened = give i none l.opened }
log_step i assigns l = elim (l.opened i) [
  | none ↦ record l { stdout = give i none l.stdout }
  | some h ↦ record l { current = some h; stdout = give i (some h) l.stdout }
]
log_step i releases l = if l.found i then record l { current = none } else l

-- The steps of all launchers, each with the number of its launcher.
unfoldable pub log_run : Logs → List (ℕ × LogStep) → Logs
unfolding log_step
log_run l [] = l
log_run l ((i, s) ∷ es) = log_run (log_step i s l) es

-- What launcher `i` does at the head of its loop, where logging is on.
abbrev pub prepare : ℕ → Bool → List (ℕ × LogStep)
prepare i created = (i, tests) ∷ (i, shuts) ∷ (i, creates created) ∷ (i, assigns) ∷ []

-- closeLogFile.
abbrev pub close_log_file : ℕ → List (ℕ × LogStep)
close_log_file i = (i, tests) ∷ (i, shuts) ∷ (i, releases) ∷ []

-- cmd.Start fails where the file that it is to pass on is closed.
unfoldable pub can_start : ℕ → Logs → Bool
can_start i l = elim (l.stdout i) [ none ↦ true | some h ↦ not (is_closed h l) ]

abbrev pub no_logs : Logs
no_logs = record {
  current = none;
  closed = [];
  next = 0;
  found = λ i. false;
  opened = λ i. none;
  stdout = λ i. none;
}

-- createLogFile's name for a file in /tmp; `stamp` is the time, formatted.
abbrev pub no_slash : ℕ → ℕ
no_slash c = if eqb c b'/' then b'-' else c

unfoldable pub log_file_name : List ℕ → List ℕ → List ℕ
log_file_name model_name stamp =
    codes "llama-server-" ++ (map no_slash model_name ++ (b'-' ∷ (stamp ++ codes ".log")))
