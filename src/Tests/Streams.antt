-- ===== src/Tests/Streams.antt =====
-- Tests and instances for the streams.
use crablib.Base.{
  ℕ, ◌+◌, ◌≤◌, min, ◌≡◌, refl, ◌⊎◌, inr, none, some, [], ◌++◌, arith, leb, if◌then◌else◌, ok, throw,
  Bytes, codes, length, take, drop, length-drop,
}
use crablib.Streams.{read, write}
use crablib.Streams.Contract.{fits, read-contents, write-contents}
use crablib.Streams.Buffer.{
  Buffer, read_some, write_some, peek, read_count, write_count, read_from, write_to, istream,
  ostream, capacity,
}
use crablib.Streams.Buffer.Parts.{content, IsBuffer}
use crablib.Streams.Buffer.Queue.{Became, read_some_lem, write_some_lem, peek_lem}
use crablib.Streams.Buffer.Transfer.{Written, write_to_lem}
use crablib.Streams.Buffer.ReadFrom.{istream-IsIStream, ostream-IsOStream, Read, read_from_lem}
use crablib.Streams.Vector
use crablib.Streams.Vector.{VectorStream}
use crablib.Streams.Combined
use crablib.Streams.Combined.{CombinedIStream, combined-reads}

-- "de" at the end of four bytes, and "f" at their start.
abbrev turned : Buffer
turned = record { impl = codes "fxde"; read_pos = 2; write_pos = 5 }

turned-IsBuffer : IsBuffer turned
turned-IsBuffer = record {
  ordered = omega arith;
  bounded = omega arith;
  inside = inr (omega arith);
}

turned_bytes : content turned ≡ codes "def"
unfolding content
turned_bytes = refl

read_some_lem_example :
    (r : Buffer) × (read_some turned 3 ≡ ok (take (min 3 (read_count turned)) (content turned), r))
    × Became turned (drop (min 3 (read_count turned)) (content turned)) r
read_some_lem_example = read_some_lem turned turned-IsBuffer 3

write_some_lem_example :
    (r : Buffer) × (write_some turned (codes "gh") ≡ ok (min 2 (write_count turned), r))
    × Became turned (content turned ++ take (min 2 (write_count turned)) (codes "gh")) r
write_some_lem_example = write_some_lem turned turned-IsBuffer (codes "gh")

peek_lem_example :
    peek turned 3
    ≡ (if leb 3 (length (content turned)) then some (take 3 (content turned)) else none)
peek_lem_example = peek_lem turned turned-IsBuffer 3

abbrev source : VectorStream
source = Vector.new (codes "xyz")

read_from_lem_example :
    (n : ℕ) × (r : Buffer) × (t : VectorStream) × (read_from Vector.istream turned source
      ≡ some (ok (n, r, t)))
    × Read Vector.istream Vector.contents Vector.IsInside Vector.istream-IsIStream turned source n r
        t
read_from_lem_example =
    read_from_lem Vector.istream Vector.contents Vector.IsInside Vector.istream-IsIStream turned
      source turned-IsBuffer (omega arith)

write_to_lem_example :
    (n : ℕ) × (r : Buffer) × (t : VectorStream) × (write_to Vector.ostream turned source 2
      ≡ some (ok (n, r, t)))
    × Written Vector.ostream Vector.contents
        (λ s. none)
        Vector.IsInside
        Vector.ostream-IsOStream
        turned
        source
        2
        n
        r
        t
write_to_lem_example =
    write_to_lem Vector.ostream Vector.contents (λ s. none) Vector.IsInside Vector.ostream-IsOStream
      turned source 2 turned-IsBuffer (omega arith)

read-contents_example :
    let enough = leb 2 (length (content turned)) in
    (r : Buffer) × IsBuffer r
    × (content r ≡ (if enough then drop 2 (content turned) else content turned))
    × (read istream turned 2
        ≡ some (
            if enough
            then ok (take 2 (content turned), r)
            else throw "crab::IStream reading from empty stream"))
read-contents_example =
    read-contents istream content IsBuffer istream-IsIStream turned 2 turned-IsBuffer

write-contents_example :
    let there = fits (length (content turned) + 2) (some (capacity turned)) in
    (r : Buffer) × IsBuffer r
    × (content r ≡ (if there then content turned ++ codes "gh" else content turned))
    × (write ostream turned (codes "gh")
        ≡ some (if there then ok r else throw "crab::OStream writing to full stream"))
write-contents_example =
    write-contents ostream content (λ b. some (capacity b)) IsBuffer ostream-IsOStream turned
      (codes "gh") turned-IsBuffer

vector_sizes : (a : VectorStream) → Vector.IsInside a → Vector.size a ≡ length (Vector.contents a)
unfolding Vector.size Vector.contents
vector_sizes a v = omega (arith, length-drop a.read_pos a.impl)

-- A vector's bytes and then a buffer's.
abbrev both : CombinedIStream VectorStream Buffer
both = record { a = source; b = turned }

abbrev both_contents : CombinedIStream VectorStream Buffer → Bytes
both_contents = Combined.contents Vector.contents content

abbrev buffer_size : Buffer → ℕ
buffer_size b = length (content b)

combined-reads_example :
    (n : ℕ) × (r : CombinedIStream VectorStream Buffer) × (Combined.read_some Vector.istream istream
        Vector.size buffer_size both 5
      ≡ ok (take n (both_contents both), r))
    × (both_contents r ≡ drop n (both_contents both))
    × Combined.IsValid Vector.IsInside IsBuffer r
    × (n ≤ 5)
    × (n ≤ length (both_contents both))
    × (n ≡ 0 → (◌≡◌ {A = ℕ} 5 0) ⊎ (both_contents both ≡ []))
combined-reads_example =
    combined-reads Vector.istream istream Vector.size buffer_size Vector.contents content
      Vector.IsInside IsBuffer Vector.istream-IsIStream istream-IsIStream vector_sizes both 5
      (omega arith) turned-IsBuffer
