-- ===== src/Options/Tests.antt =====
-- A request's switches at a concrete input, with digits for strto*.
use public_inbox.Options.{
  Libc, Switch, Parsed, parse_request, fresh, parse_switches, letter_of, parse_letter, push, opt_u,
  check_key,
}
use public_inbox.Options.Bounds.{InBounds, IdsInBounds, seen, parse_request-InBounds}
use public_inbox.Options.Key.{keyed, parse_request-share}
use public_inbox.Args.RoundTrip.{NoNul}
use public_inbox.Base.{All, ok, pos, ◌≡◌, refl, ◌≢◌, ◌↔◌, false, List, [], ◌∷◌, arith}
use public_inbox.Prefix.Tests.{c_strtoull, read_digits}

abbrev pub libc : Libc
libc = record {
  strtoull = c_strtoull;
  strtoul = c_strtoull;
  strtol = λ s. (pos (c_strtoull s).0, (c_strtoull s).1);
}

-- -d x -m 20 -Q y
abbrev switches : List Switch
switches =
    record { letter = b'd'; pad = 0; arg = 120 ∷ [] }
    ∷ record { letter = b'm'; pad = 0; arg = 50 ∷ 48 ∷ [] }
    ∷ record { letter = b'Q'; pad = 0; arg = 121 ∷ [] }
    ∷ []

abbrev parsed : Parsed
parsed = (
  record fresh { dirv = (120 ∷ []) ∷ []; max = 20; qpfxv = (121 ∷ []) ∷ [] },
  45 ∷ 100 ∷ 0 ∷ 120 ∷ 0 ∷ 45 ∷ 81 ∷ 0 ∷ 121 ∷ 0 ∷ [],
)

parse_switches_run : parse_request libc switches ≡ ok parsed
unfolding parse_request parse_switches parse_letter letter_of push opt_u check_key c_strtoull
    read_digits
parse_switches_run = refl

parse_request-InBounds_example :
    InBounds parsed.0 × (parsed.0.dirv ≢ []) × IdsInBounds false false false parsed.0
unfolding seen letter_of
parse_request-InBounds_example = parse_request-InBounds libc switches parsed parse_switches_run

switches-NoNul : All (λ x. NoNul x.1) (keyed switches)
unfolding keyed letter_of
switches-NoNul = omega arith

parse_request-share_example : (parsed.1 ≡ parsed.1) ↔ (keyed switches ≡ keyed switches)
parse_request-share_example =
    parse_request-share libc switches switches parsed parsed parse_switches_run parse_switches_run
      switches-NoNul switches-NoNul
