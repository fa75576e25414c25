-- ===== src/Server/Tests.antt =====
-- Runs of start-up at concrete inputs, and its theorems applied to them.
use wsgnet.Prelude.{
  ℕ, leb, ◌&&◌, ◌||◌, not, ◌==◌, if◌then◌else◌, arith, ◌+◌, ◌^◌, ◌<◌, ◌≤◌, ◌≡◌, refl, true, some,
  List, [], ◌∷◌, ◌++◌, pos,
}
use wsgnet.Options.{load_options, Options, no_options, with_num_event_loop, apply_all}
use wsgnet.Server.{
  default_logger, sep, tcp, udp, parse_proto_addr, normalize, configure, threads_allowed,
  buffer_cap, num_event_loops,
}
use wsgnet.Toolkit.{ceil_to_power_of_two, fill_bits}
use wsgnet.Toolkit.Ceil.{ceil_to_power_of_two-least}
use wsgnet.Server.Address.{parse_proto_addr-sep}

-- unicode.ToLower on Latin-1: the capitals are A to Z and À to Þ, but for the sign ×.
abbrev lower : ℕ → ℕ
lower c = if leb 65 c && leb c 90 || leb 192 c && (leb c 222 && not (c == 215)) then c + 32 else c

-- "TCP" and "/É"
abbrev network : List ℕ
network = 84 ∷ 67 ∷ 80 ∷ []

abbrev address : List ℕ
address = 47 ∷ 201 ∷ []

parse_proto_addr-sep_example :
    (parse_proto_addr lower (network ++ (sep ++ address)) ≡ (tcp, 47 ∷ 233 ∷ []))
    × (parse_proto_addr lower address ≡ (tcp, 47 ∷ 233 ∷ []))
parse_proto_addr-sep_example = parse_proto_addr-sep lower refl refl network address refl refl

udp_6 : normalize (udp ++ (54 ∷ [])) ≡ some udp
unfolding normalize
udp_6 = refl

-- The last of two settings of one option counts.
eight_loops :
    num_event_loops 4
      (load_options (with_num_event_loop (pos 2) ∷ with_num_event_loop (pos 8) ∷ []))
    ≡ 8
unfolding num_event_loops load_options with_num_event_loop apply_all
eight_loops = refl

-- Options that ask for a buffer of 5000 bytes.
abbrev large : Options
large = record no_options { read_buffer_cap = pos 5000 }

ceil_to_power_of_two-least_example :
    (k : ℕ) × (ceil_to_power_of_two 5000 ≡ some (2 ^ (k + 1)))
    × (2 ^ k < 5000)
    × (5000 ≤ 2 ^ (k + 1))
ceil_to_power_of_two-least_example = ceil_to_power_of_two-least 5000 (omega arith) (omega arith)

eight_kilobytes :
    configure 7 large
    ≡ some (
      true,
      record large { read_buffer_cap = pos 8192; write_buffer_cap = pos 65536; logger = some 7 },
    )
unfolding configure default_logger threads_allowed buffer_cap ceil_to_power_of_two fill_bits
eight_kilobytes = refl
