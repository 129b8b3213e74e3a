-- ===== src/Receive/Descriptors.antt =====
-- What recv_req makes of the descriptors of a packet.
use public_inbox.Receive.{
  FdMode, invalid_fd, read_only, write_only, read_write, Packet, Streams, open_streams, take_packet,
}
use public_inbox.Base.{
  ◌==◌, if◌then◌else◌, length, List-cases, Run, aborts, exits, ok, stop, ◌+◌, ◌≤◌, ◌<◌, ◌≡◌, refl,
  inl, inr, Bool, true, false, not, ◌&&◌, ◌||◌, List, [], ◌∷◌, arith,
}

abbrev pub is_usable : FdMode → Bool
is_usable write_only = true
is_usable read_write = true
is_usable _ = false

unfoldable pub all_usable : List FdMode → Bool
all_usable [] = true
all_usable (fd ∷ fds) = is_usable fd && all_usable fds

-- Whether the first descriptor is bidirectional.
abbrev pub first_has_input : List FdMode → Bool
first_has_input (read_write ∷ fds) = true
first_has_input _ = false

-- Descriptors behind the first do not change has_input.
open_streams-behind :
    (fds : List FdMode) (r : Streams)
    → 0 < r.count
    → r.count + length fds ≤ 2
    → open_streams fds r ≡ (
        if all_usable fds
        then ok (record { count = r.count + length fds; has_input = r.has_input })
        else stop (exits 1))
unfolding open_streams all_usable
open_streams-behind [] r z l = ground arith
open_streams-behind (invalid_fd ∷ fds) r z l = refl
open_streams-behind (read_only ∷ fds) r z l = refl
open_streams-behind (write_only ∷ fds) r z l =
    ground (arith, open_streams-behind fds (record r { count = r.count + 1 }))
open_streams-behind (read_write ∷ fds) r z l = ground (
  arith,
  open_streams-behind fds
      (record { count = r.count + 1; has_input = r.has_input || (r.count == 0) }),
)

-- What the descriptors give.
abbrev pub streams_of : List FdMode → Run Streams
streams_of fds =
    if (length fds == 0) || not (all_usable fds)
    then stop (exits 1)
    else ok (record { count = length fds; has_input = first_has_input fds })

open_streams-streams_of :
    (fd : FdMode) (fds : List FdMode)
    → length (fd ∷ fds) ≤ 2
    → open_streams (fd ∷ fds) (record { count = 0; has_input = false }) ≡ streams_of (fd ∷ fds)
unfolding open_streams all_usable
open_streams-streams_of invalid_fd fds l = ground arith
open_streams-streams_of read_only fds l = ground arith
open_streams-streams_of write_only fds l =
    ground (arith, open_streams-behind fds (record { count = 1; has_input = false }))
open_streams-streams_of read_write fds l =
    ground (arith, open_streams-behind fds (record { count = 1; has_input = true }))

-- With at most two descriptors, for which the control message has room, recv_req stays within
-- req->fp: a truncated packet aborts the process; one without descriptors, or with one that is
-- invalid or cannot be written, ends it with 1; any other gives as many streams as descriptors, and
-- has_input just when the first can be read as well.
pub take_packet_lem :
    (p : Packet)
    → length p.fds ≤ 2
    → take_packet p ≡ (if p.truncated then stop aborts else streams_of p.fds)
unfolding take_packet
take_packet_lem p l = elim (List-cases p.fds) [
  | inl e ↦ ground (arith, e)
  | inr (fd, fds, e) ↦ ground (arith, e, open_streams-streams_of fd fds)
]
