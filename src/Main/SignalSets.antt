-- ===== src/Main/SignalSets.antt =====
-- The signal masks of main in lib/PublicInbox/xap_helper.h.
use public_inbox.Workers.{Signal, sigterm, sigusr1, sigchld, sigttin, sigttou}
use public_inbox.Base.{◌==◌, if◌then◌else◌, set, ℕ, Bool, true, false}

-- The signals that the masks name.
pub data MaskSignal : Type 0 where
  sigabrt sigbus sigfpe sigill sigsegv sigxcpu sigxfsz sigalrm : MaskSignal
  plain : Signal → MaskSignal

-- Which signals are the same; no other than these are taken out of a set.
abbrev pub same_signal : MaskSignal → MaskSignal → Bool
same_signal sigabrt sigabrt = true
same_signal sigbus sigbus = true
same_signal sigfpe sigfpe = true
same_signal sigill sigill = true
same_signal sigsegv sigsegv = true
same_signal sigxcpu sigxcpu = true
same_signal sigxfsz sigxfsz = true
same_signal sigalrm sigalrm = true
same_signal (plain sigterm) (plain sigterm) = true
same_signal (plain sigusr1) (plain sigusr1) = true
same_signal (plain sigchld) (plain sigchld) = true
same_signal (plain sigttin) (plain sigttin) = true
same_signal (plain sigttou) (plain sigttou) = true
same_signal _ _ = false

-- sigset_t: whether a signal is in it, that is blocked.
abbrev pub SignalSet : Type 0
SignalSet = MaskSignal → Bool

abbrev pub sigfillset : SignalSet
sigfillset x = true

abbrev pub sigdelset : MaskSignal → SignalSet → SignalSet
sigdelset s set x = if same_signal s x then false else set x

-- The calls of DELSET, for one of the sets.
unfoldable pub delset : SignalSet → SignalSet
delset set = sigdelset sigxfsz (
    sigdelset sigxcpu (
      sigdelset sigsegv
        (sigdelset sigill (sigdelset sigfpe (sigdelset sigbus (sigdelset sigabrt set))))))

-- fullset, workerset, and pset, which the parent's loops run with.
pub record Masks : Type 0 where
  pub fullset : SignalSet
  pub workerset : SignalSet
  pub pset : SignalSet

unfoldable pub masks : ℕ → Masks
unfolding delset
masks nworker =
    let worker = sigdelset (plain sigusr1) (delset sigfillset) in
    record {
      fullset = sigdelset sigalrm (delset sigfillset);
      workerset =
          if nworker == 0
          then worker
          else sigdelset (plain sigchld) (sigdelset (plain sigterm) worker);
      pset = sigdelset (plain sigusr1) (
          sigdelset (plain sigttou)
            (sigdelset (plain sigttin) (sigdelset (plain sigchld) (delset sigfillset))));
    }
