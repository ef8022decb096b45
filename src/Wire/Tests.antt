-- ===== src/Wire/Tests.antt =====
-- Runs of the JSON writer, and its theorems at concrete inputs.
use plexus_core.Base.{Text, codes, true, some, [], ◌++◌, ◌≡◌, refl, leb, length, ◌+◌}
use plexus_core.Wire.Scan.{Memory, x86_64, copy_clean}
use plexus_core.Wire.Scan.Copies.{Copies}
use plexus_core.Wire.Scan.Blocks.{copy_clean-Copies}
use plexus_core.Wire.Writer.{Machine, string, key}
use plexus_core.Wire.Writer.RoundTrip.{read_quoted, read-string}
use plexus_core.Wire.Serializer.{
  Node, number, str, seq, structure, no_more, node, no_field, field, write, wrote, opens,
}
use plexus_core.Wire.Serializer.Meaning.{json, IsTruthful}
use plexus_core.Wire.Serializer.Groups.{Agrees}
use plexus_core.Wire.Serializer.Refines.{write-json}

abbrev blank : Memory
blank = λ p. 0

-- Room for 64 bytes in all.
abbrev machine : Machine
machine = record {
  cpu = x86_64 true;
  fits = λ out n. leb (length out + n) 64;
  spare = λ out. blank;
}

abbrev long_text : Text
long_text = codes "thirty-two bytes and more, with a \"quote\" in the second block"

abbrev ticket : Node
ticket = structure (codes "Ticket") 2 (
    field (codes "title") (str (codes "a\nb")) (
      field (codes "tags")
        (seq (some 2) (node (number (codes "1")) (node (str (codes "x")) no_more))) no_field))

copy_clean_runs : (copy_clean (x86_64 true) long_text 0 blank).0 ≡ 34
unfolding copy_clean
copy_clean_runs = refl

write_runs :
    write machine (λ b. codes "0") ticket []
    ≡ wrote (codes "{\"title\":\"a\\nb\",\"tags\":[1,\"x\"]}")
unfolding write string key
write_runs = refl

copy_clean-Copies_example : Copies long_text 0 blank (copy_clean (x86_64 true) long_text 0 blank)
copy_clean-Copies_example = copy_clean-Copies (x86_64 true) long_text 0 blank

read-string_example :
    read_quoted (string machine long_text [] ++ codes ",1") ≡ some (long_text, codes ",1")
read-string_example = read-string machine long_text (codes ",1")

ticket-IsTruthful : IsTruthful ticket
unfolding IsTruthful opens
ticket-IsTruthful = (λ e. cc, (tt, (((λ e. cc), (tt, (tt, tt))), tt)))

write-json_example :
    Agrees (json (λ b. codes "0") ticket) [] (write machine (λ b. codes "0") ticket [])
write-json_example = write-json machine (λ b. codes "0") ticket [] ticket-IsTruthful
