-- ===== src/Tests/Ospf.antt =====
-- ospf/: a checksum, two headers and an interface.
use chatter.Base.{ℕ, ◌/◌, ◌%◌, List, [], ◌∷◌, ◌++◌, length, ◌≡◌, ◌↔◌}
use chatter.Base.Int.{pos, negsuc}
use chatter.Ospf.Checksum.{fletcher16_checksum, generate_checksum}
use chatter.Ospf.Checksum.Sound.{fletcher16_checksum-generate_checksum}
use chatter.Ospf.Lsa.{LsaHeader, compare}
use chatter.Ospf.Lsa.Recency.{MoreRecent, compare_iff}
use chatter.Ospf.Interface.{
  interface_up, loop_ind, Input, event, hello_fires, wait_fires, cancel, new_interface, run,
}
use chatter.Ospf.Interface.Reach.{NoElection, run-new_interface}

abbrev before : List ℕ
before = 0x22 ∷ 0x01 ∷ 0xc0 ∷ []

abbrev behind : List ℕ
behind = 0x30 ∷ 0xff ∷ []

fletcher16_checksum-generate_checksum_example :
    let c = generate_checksum (before ++ (7 ∷ 9 ∷ behind)) (length before) in
    fletcher16_checksum (before ++ ((c / 256) ∷ (c % 256) ∷ behind)) ≡ 0
fletcher16_checksum-generate_checksum_example =
    fletcher16_checksum-generate_checksum before behind 7 9

abbrev old : LsaHeader
old = record { sequence_number = negsuc 5; checksum = 3; age = 10 }

abbrev new : LsaHeader
new = record { sequence_number = negsuc 4; checksum = 1; age = 3600 }

compare_iff_example :
    ((compare new old ≡ pos 1) ↔ MoreRecent new old)
    × ((compare new old ≡ negsuc 0) ↔ MoreRecent old new)
compare_iff_example = compare_iff new old

abbrev inputs : List Input
inputs = event interface_up ∷ wait_fires ∷ event loop_ind ∷ hello_fires ∷ cancel ∷ []

run-new_interface_example : NoElection (run (new_interface 10 40 1) inputs).0
run-new_interface_example = run-new_interface 10 40 1 inputs
