-- ===== src/Receive/Tests.antt =====
-- A worker that gets the same request twice, with SIGUSR1 before and behind it.
use public_inbox.Receive.{read_write, end_of_file, Worker, recv_loop, take_packet, write_only}
use public_inbox.Receive.Descriptors.{all_usable, take_packet_lem}
use public_inbox.Receive.Answers.{Ask, asks, Answered, AllAnswered, recv_loop-answers}
use public_inbox.Dispatch.{Answer}
use public_inbox.Dispatch.Commands.{mset_answer}
use public_inbox.Dispatch.Tests.{outside, mset_args, mset_args-Ready, mset_args-answer}
use public_inbox.Cache.Tests.{small, limited, no_code, asked, empty, empty-IsSound}
use public_inbox.Cache.Budget.{IsSound}
use public_inbox.Mset.Tests.{one_hit}
use public_inbox.Stderr.Tests.{log_files-LogsWork}
use public_inbox.Base.{ok, ℕ, ◌≡◌, refl, true, false, [], ◌∷◌, ◌++◌, arith}

abbrev idle : Worker
idle = record {
  sock_open = true;
  needs_reopen = false;
  reopened = 0;
  redirected = false;
  served = [];
  answers = [];
  cache = empty;
  in_command = false;
}

abbrev pub asking : Ask
asking = record {
  before = 1;
  after = 1;
  first = 109;
  name = 115 ∷ 101 ∷ 116 ∷ [];
  rest = (b'-' ∷ b'd' ∷ []) ∷ (b'a' ∷ []) ∷ (b'q' ∷ []) ∷ [];
  fds = read_write ∷ [];
}

abbrev pub answered : Answer
answered = mset_answer (outside 4) asked one_hit

pub asking-Answered : (n : ℕ) → Answered (limited n) no_code (outside n) asking answered
unfolding take_packet
asking-Answered n = record {
  clean = omega arith;
  few = omega arith;
  streams = record { count = 1; has_input = true };
  usable = refl;
  same_world = refl;
  reopens = refl;
  logs_work = log_files-LogsWork;
  sets_stderr = refl;
  restores_stderr = refl;
  ready = mset_args-Ready n;
  answered = mset_args-answer n false;
  back = refl;
}

recv_loop-answers_example :
    (v' : Worker) × (recv_loop
        (λ i. outside 4)
        (asks ((asking, answered) ∷ (asking, answered) ∷ []) ++ (end_of_file ∷ []))
        idle
      ≡ recv_loop (λ i. outside 4) (end_of_file ∷ []) v')
    × (v'.served ≡ mset_args ∷ mset_args ∷ [])
    × (v'.answers ≡ answered ∷ answered ∷ [])
    × IsSound small no_code v'.cache
    × (v'.sock_open ≡ true)
unfolding AllAnswered
recv_loop-answers_example =
    recv_loop-answers small no_code (λ i. outside 4) ((asking, answered) ∷ (asking, answered) ∷ [])
      (end_of_file ∷ []) idle refl refl empty-IsSound (asking-Answered 4, (asking-Answered 4, tt))

-- A stream that is bidirectional, and one for status.
take_packet_lem_example :
    take_packet (record {
      rbuf = b'q' ∷ 0 ∷ [];
      truncated = false;
      fds = read_write ∷ write_only ∷ [];
      late = [];
    })
    ≡ ok (record { count = 2; has_input = true })
unfolding all_usable
take_packet_lem_example =
    take_packet_lem
      (record {
        rbuf = b'q' ∷ 0 ∷ [];
        truncated = false;
        fds = read_write ∷ write_only ∷ [];
        late = [];
      })
      (omega arith)
