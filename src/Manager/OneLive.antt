-- ===== src/Manager/OneLive.antt =====
-- manager/manager.go: the launchers' contexts as a list in which at most one is live.
use llm_server_manager.Base.{
  ◌≡◌, refl, sym, inr, Bool, true, Option, none, some, List, [], ◌∷◌, ◌++◌, String, ℕ, zero, suc,
  length, get_elem?, set, All, arith, subst, ap, ◌∙◌,
}
use llm_server_manager.Manager.State.{
  Manager, begin_stop, clear_if_pid_matches, claim, mark_restarting, get_current_server,
}
use llm_server_manager.Manager.Launcher.{Launcher, after_exit}
use llm_server_manager.Manager.World.{World, cancel}

abbrev pub AllCancelled : List Launcher → Type 0
AllCancelled = All (λ l. l.cancelled ≡ true)

-- Every launcher but the one whose context the manager can cancel is cancelled.
abbrev pub OneLive : Option ℕ → List Launcher → Type 0
OneLive none ls = AllCancelled ls
OneLive (some i) [] = Unit
OneLive (some zero) (l ∷ ls) = AllCancelled ls
OneLive (some (suc i)) (l ∷ ls) = (l.cancelled ≡ true) × OneLive (some i) ls

pub OneLive-cast : {c c' : Option ℕ} (ls : List Launcher) → c' ≡ c → OneLive c ls → OneLive c' ls
OneLive-cast ls e h = subst (λ c. OneLive c ls) (sym e) h

pub AllCancelled-set :
    (ls : List Launcher) (i : ℕ) (l l' : Launcher)
    → get_elem? ls i ≡ some l
    → l'.cancelled ≡ l.cancelled
    → AllCancelled ls
    → AllCancelled (set ls i l')
AllCancelled-set [] i l l' e c h = tt
AllCancelled-set (x ∷ ls) zero l l' e c h = (c ∙ ground arith, h.1)
AllCancelled-set (x ∷ ls) (suc i) l l' e c h = (h.0, AllCancelled-set ls i l l' e c h.1)

pub OneLive-set :
    (c : Option ℕ) (ls : List Launcher) (i : ℕ) (l l' : Launcher)
    → get_elem? ls i ≡ some l
    → l'.cancelled ≡ l.cancelled
    → OneLive c ls
    → OneLive c (set ls i l')
OneLive-set none ls i l l' e k h = AllCancelled-set ls i l l' e k h
OneLive-set (some j) [] i l l' e k h = tt
OneLive-set (some zero) (x ∷ ls) zero l l' e k h = h
OneLive-set (some zero) (x ∷ ls) (suc i) l l' e k h = AllCancelled-set ls i l l' e k h
OneLive-set (some (suc j)) (x ∷ ls) zero l l' e k h = (k ∙ ground arith, h.1)
OneLive-set (some (suc j)) (x ∷ ls) (suc i) l l' e k h =
    (h.0, OneLive-set (some j) ls i l l' e k h.1)

pub cancel-AllCancelled :
    (c : Option ℕ) (ls : List Launcher) → OneLive c ls → AllCancelled (cancel c ls)
unfolding cancel
cancel-AllCancelled none ls h = h
cancel-AllCancelled (some i) [] h = tt
cancel-AllCancelled (some zero) (l ∷ ls) h = (refl, h)
cancel-AllCancelled (some (suc i)) (l ∷ ls) h = (h.0, cancel-AllCancelled (some i) ls h.1)

pub length-cancel : (c : Option ℕ) (ls : List Launcher) → length (cancel c ls) ≡ length ls
unfolding cancel
length-cancel none ls = refl
length-cancel (some i) [] = refl
length-cancel (some zero) (l ∷ ls) = refl
length-cancel (some (suc i)) (l ∷ ls) = ap suc (length-cancel (some i) ls)

pub OneLive-of_AllCancelled : (c : Option ℕ) (ls : List Launcher) → AllCancelled ls → OneLive c ls
OneLive-of_AllCancelled none ls h = h
OneLive-of_AllCancelled (some i) [] h = tt
OneLive-of_AllCancelled (some zero) (l ∷ ls) h = h.1
OneLive-of_AllCancelled (some (suc i)) (l ∷ ls) h = (h.0, OneLive-of_AllCancelled (some i) ls h.1)

pub OneLive-append :
    (ls : List Launcher) (l : Launcher)
    → AllCancelled ls
    → OneLive (some (length ls)) (ls ++ l ∷ [])
OneLive-append [] l h = tt
OneLive-append (x ∷ ls) l h = (h.0, OneLive-append ls l h.1)

abbrev pub Guarded : World → Type 0
Guarded w = OneLive w.manager.cancel_func w.launchers

pub begin_stop-cancel_func :
    (m m' : Manager) (name : String) (pid : ℕ)
    → begin_stop m name ≡ inr (m', pid)
    → m'.cancel_func ≡ m.cancel_func
unfolding begin_stop
begin_stop-cancel_func m m' name pid e = ground arith

pub clear-cancel_func :
    (pid : ℕ) (m : Manager) → (clear_if_pid_matches pid m).cancel_func ≡ m.cancel_func
unfolding clear_if_pid_matches
clear-cancel_func pid m = ground arith

pub mark_restarting-cancel_func :
    (pid : ℕ) (m : Manager) → (mark_restarting pid m).cancel_func ≡ m.cancel_func
unfolding mark_restarting
mark_restarting-cancel_func pid m = ground arith

pub get_current_server-cancel_func :
    (alive : List ℕ) (m : Manager) → (get_current_server alive m).0.cancel_func ≡ m.cancel_func
unfolding get_current_server
get_current_server-cancel_func alive m = ground arith

pub claim-cancel_func :
    (pid registered crashes : ℕ) (m m' : Manager)
    → claim pid registered crashes m ≡ some m'
    → m'.cancel_func ≡ m.cancel_func
unfolding claim
claim-cancel_func pid registered crashes m m' e = ground arith

pub after_exit-cancelled :
    (retries pid : ℕ) (failed : Bool) (l : Launcher)
    → (after_exit retries pid failed l).cancelled ≡ l.cancelled
unfolding after_exit
after_exit-cancelled retries pid failed l = ground arith
