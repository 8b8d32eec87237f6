-- ===== src/Tests/OsStreams.antt =====
-- Streams of the class osinstream_t.
use bootcamp.Base.{◌≡◌, refl, true, false, some, List, [], ◌∷◌, All, get_elem?, arith, ok, Returns}
use bootcamp.Wire.{read_bytes}
use bootcamp.Streams.{
  Mapping, Stream, Program, contents, invalid_stream, add_stream, open_stream, copy_stream,
  copy_out, read, seek, destroy, Call, open_file, copy, read_from, seek_to, close, remove_at,
  call_at, step, run, empty_program,
}
use bootcamp.Streams.Sharing.{IsShared}
use bootcamp.Streams.Bounds.{IsSane, ReadAs}
use bootcamp.Streams.Lifetime.{run-Returns, run-ReadAs}

-- A file of three bytes, a copy of its stream that reads two of them, and the first one closed.
abbrev shared_calls : List Call
shared_calls =
    open_file (contents (7 ∷ 8 ∷ 9 ∷ []) true)
    ∷ copy (invalid_stream 0) true 0
    ∷ read_from 1 true 2
    ∷ seek_to 0 1 true
    ∷ close 0 true
    ∷ []

abbrev reader : Stream
reader = record { valid = true; mapping = 0; fpos = 2; filesize = 3 }

abbrev shared_program : Program
shared_program = record {
  mappings = record { bytes = 7 ∷ 8 ∷ 9 ∷ []; mapped = true; count = 1 } ∷ [];
  streams = reader ∷ [];
}

shared_calls-IsSane : All IsSane shared_calls
shared_calls-IsSane =
    ((omega arith, refl), (refl, ((refl, omega arith, omega arith), (refl, (refl, tt)))))

run_shared : run shared_calls empty_program ≡ ok shared_program
unfolding run step call_at open_stream add_stream copy_stream read copy_out read_bytes seek destroy
    remove_at
run_shared = refl

-- The last stream unmaps the file.
run_unmapped :
    run (close 0 true ∷ []) shared_program
    ≡ ok (record {
      mappings = record { bytes = 7 ∷ 8 ∷ 9 ∷ []; mapped = false; count = 0 } ∷ [];
      streams = [];
    })
unfolding run step call_at destroy remove_at
run_unmapped = refl

run-Returns_example : Returns IsShared (run shared_calls empty_program)
run-Returns_example = run-Returns shared_calls shared_calls-IsSane

run-ReadAs_example :
    (m : Mapping) × (get_elem? shared_program.mappings 0 ≡ some m)
    × Returns (ReadAs m reader 1) (read shared_program.mappings reader true 1)
run-ReadAs_example =
    run-ReadAs shared_calls shared_program 0 reader true 1 shared_calls-IsSane run_shared refl refl
      refl (omega arith) (omega arith)
