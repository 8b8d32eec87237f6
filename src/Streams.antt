-- ===== src/Streams.antt =====
-- osinstream_t of os.h and os.cpp (day 3 and day 4): a file that is mapped into memory, and the
-- streams that share the mapping. The streams of a std::ifstream are not modelled.
pub mod Sharing
pub mod Bounds
pub mod Lifetime
use bootcamp.Base.{
  ℕ, zero, suc, ◌+◌, ◌-◌, ◌^◌, Bool, true, false, not, ◌&&◌, ◌||◌, Option, none, some, List, [],
  ◌∷◌, ◌++◌, ltb, leb, ◌==◌, if◌then◌else◌, length, drop, set, get_elem?, Result, ok, err,
  out_of_bounds, missing_return, assert, ◌>>=◌, ◌>>◌,
}
use bootcamp.Wire.{read_bytes}

-- What the constructor maps and allocates: the bytes of the file, whether they are mapped and the
-- descriptor is open, and *count.
pub record Mapping : Type 0 where
  pub bytes : List ℕ
  pub mapped : Bool
  pub count : ℕ

-- osinstream_t: fd, fptr and count are what the mapping has, which stands in a list.
pub record Stream : Type 0 where
  pub valid : Bool
  pub mapping : ℕ
  pub fpos : ℕ
  pub filesize : ℕ

-- The mappings there have been, and the streams that are alive.
pub record Program : Type 0 where
  pub mappings : List Mapping
  pub streams : List Stream

-- What open, fstat and mmap return: a failure, the last one with the size of the file, or the
-- bytes of the file; and then whether pthread_mutex_init returns 0.
pub data Opened : Type 0 where
  no_file : Opened
  no_map : ℕ → Opened
  contents : List ℕ → Bool → Opened

-- A stream that the constructor left invalid, with what it has set filesize to.
abbrev pub invalid_stream : ℕ → Stream
invalid_stream size = record { valid = false; mapping = 0; fpos = 0; filesize = size }

-- The end of the constructor: a stream of a file that is mapped.
unfoldable pub add_stream : List ℕ → Program → Program
add_stream bytes p =
    let fin : Stream = record {
      valid = true;
      mapping = length p.mappings;
      fpos = 0;
      filesize = length bytes;
    } in
    let m : Mapping = record { bytes = bytes; mapped = true; count = 1 } in
    record { mappings = p.mappings ++ (m ∷ []); streams = p.streams ++ (fin ∷ []) }

-- osinstream_t::osinstream_t(filename, os)
unfoldable pub open_stream : Opened → Program → Result Program
open_stream no_file p = ok (record p { streams = p.streams ++ (invalid_stream 0 ∷ []) })
open_stream (no_map size) p = ok (record p { streams = p.streams ++ (invalid_stream size ∷ []) })
open_stream (contents bytes locked) p = do assert locked; ok (add_stream bytes p)

-- osinstream_t::osinstream_t(obj), for the object that `memory` was: the fields that the
-- constructor does not set hold what the memory held. `locked` is whether pthread_mutex_init returns
-- 0.
unfoldable pub copy_stream : Stream → Bool → Stream → Program → Result Program
copy_stream memory locked obj p = elim obj.valid [
  | false ↦ ok (record p { streams = p.streams ++ (record memory { valid = false } ∷ []) })
  | true ↦ elim (get_elem? p.mappings obj.mapping) [
    | none ↦ err out_of_bounds
    | some m ↦ do
      assert locked
      ok (record {
        mappings = set p.mappings obj.mapping (record m { count = m.count + 1 });
        streams = p.streams ++ (obj ∷ []);
      })
  ]
]

-- fpos + size > filesize, where the sum of two long that leaves its range is negative.
abbrev pub is_beyond : ℕ → ℕ → ℕ → Bool
is_beyond fpos size filesize = ltb (fpos + size) (2 ^ 63) && ltb filesize (fpos + size)

-- The memcpy of osinstream_t::read.
unfoldable pub copy_out : Mapping → ℕ → ℕ → Result (List ℕ)
copy_out m cpos size =
    if m.mapped
    then (do (bytes, _) ← read_bytes size (drop cpos m.bytes); ok bytes)
    else err out_of_bounds

-- osinstream_t::read of a valid stream into a buffer, where `ptr` is whether the pointer to it is
-- not null: the stream after the call, and what is in the buffer, or none where it returns -1.
unfoldable pub read : List Mapping → Stream → Bool → ℕ → Result (Stream × Option (List ℕ))
read mappings s ptr size = do
  assert (ltb 0 size)
  assert ptr
  elim (is_beyond s.fpos size s.filesize) [
    | true ↦ ok (s, none)
    | false ↦ elim (get_elem? mappings s.mapping) [
      | none ↦ err out_of_bounds
      | some m ↦ do
        bytes ← copy_out m s.fpos size
        ok (record s { fpos = s.fpos + size }, some bytes)
    ]
  ]

-- osinstream_t::seek, with pos as its 64-bit pattern: the stream after the call, and whether it
-- returns -1. Where it does not, it sets fpos and comes to its end without a return: `goes_on` is
-- whether the compiled function then returns all the same.
unfoldable pub seek : Stream → ℕ → Bool → Result (Stream × Bool)
seek s pos goes_on =
    if leb (2 ^ 63) pos || leb s.filesize pos
    then ok (s, true)
    else if goes_on
    then ok (record s { fpos = pos }, false)
    else err missing_return

-- osinstream_t::~osinstream_t(), on the mappings, where no other destructor runs at the same time;
-- `unlocked` is whether pthread_mutex_destroy returns 0.
unfoldable pub destroy : List Mapping → Stream → Bool → Result (List Mapping)
destroy mappings s unlocked = elim s.valid [
  | false ↦ ok mappings
  | true ↦ elim (get_elem? mappings s.mapping) [
    | none ↦ err out_of_bounds
    | some m ↦ do
      assert (leb 1 m.count)
      let left = m.count - 1
      let after =
          set mappings s.mapping
            (record m { count = left; mapped = if left == 0 then false else m.mapped })
      assert unlocked
      ok after
  ]
]

-- A call that the program makes of the constructors, of a stream that is alive, or of its
-- destructor, one after the other. A read of a stream that is not valid is one of the std::ifstream.
pub data Call : Type 0 where
  open_file : Opened → Call
  copy : Stream → Bool → ℕ → Call
  read_from : ℕ → Bool → ℕ → Call
  seek_to : ℕ → ℕ → Bool → Call
  close : ℕ → Bool → Call

unfoldable pub remove_at : ℕ → List Stream → List Stream
remove_at i [] = []
remove_at zero (s ∷ streams) = streams
remove_at (suc i) (s ∷ streams) = s ∷ remove_at i streams

-- A read of stream number i, that is `s`.
abbrev pub read_stream : ℕ → Bool → ℕ → Stream → Program → Result Program
read_stream i ptr size s p = elim s.valid [
  | false ↦ ok p
  | true ↦ do
    (after, _) ← read p.mappings s ptr size
    ok (record p { streams = set p.streams i after })
]

unfoldable pub call_at : Call → Stream → Program → Result Program
call_at (open_file o) s p = open_stream o p
call_at (copy memory locked i) s p = copy_stream memory locked s p
call_at (read_from i ptr size) s p = read_stream i ptr size s p
call_at (seek_to i pos goes_on) s p = do
  (after, _) ← seek s pos goes_on
  ok (record p { streams = set p.streams i after })
call_at (close i unlocked) s p = do
  mappings ← destroy p.mappings s unlocked
  ok (record { mappings = mappings; streams = remove_at i p.streams })

-- The stream that a call is made of; there are none of one that is not alive.
abbrev pub stream_of : Call → Program → Option Stream
stream_of (open_file o) p = some (invalid_stream 0)
stream_of (copy memory locked i) p = get_elem? p.streams i
stream_of (read_from i ptr size) p = get_elem? p.streams i
stream_of (seek_to i pos goes_on) p = get_elem? p.streams i
stream_of (close i unlocked) p = get_elem? p.streams i

unfoldable pub step : Call → Program → Result Program
step c p = elim (stream_of c p) [ none ↦ ok p | some s ↦ call_at c s p ]

unfoldable pub run : List Call → Program → Result Program
run [] p = ok p
run (c ∷ calls) p = do next ← step c p; run calls next

abbrev pub empty_program : Program
empty_program = record { mappings = []; streams = [] }
