-- ===== src/Streams/Lifetime.antt =====
-- Whatever a program does with its streams: no assert of theirs is tripped, and a file stays mapped
-- as long as a stream uses it, and no longer.
use bootcamp.Base.{
  ℕ, ◌-◌, ◌^◌, ◌<◌, ◌≡◌, refl, sym, ap, subst, Bool, true, false, ◌||◌, leb, Bool-cases,
  Option-cases, inl, inr, Option, none, some, List, [], ◌∷◌, All, ◌==◌, if◌then◌else◌, set,
  get_elem?, arith, ok, Returns, Returns-ok, Returns-bind,
}
use bootcamp.ChunkReader.Order.{All-get_elem?}
use bootcamp.Streams.{
  Mapping, Stream, Program, read, seek, destroy, Call, open_file, copy, read_from, seek_to, close,
  remove_at, read_stream, call_at, stream_of, step, run, empty_program,
}
use bootcamp.Streams.Sharing.{
  users, IsUsing, IsShared, users-remove_at, All-remove_at, IsUsing-Keeps, set-Keeps, set_cases,
}
use bootcamp.Streams.Bounds.{
  IsSane, open_stream-Returns, copy_stream-Returns, stream_mapped, moved-IsShared, ReadAs,
  read-ReadAs,
}

read_stream-Returns :
    (i size : ℕ) (ptr : Bool) (s : Stream) (p : Program)
    → IsShared p
    → get_elem? p.streams i ≡ some s
    → ptr ≡ true
    → 0 < size
    → size < 2 ^ 62
    → Returns IsShared (read_stream i ptr size s p)
read_stream-Returns i size ptr s p h e buffer positive small = elim (Bool-cases s.valid) [
  | inr invalid ↦
      let steps : read_stream i ptr size s p ≡ ok p = ground (arith, invalid) in
      subst (Returns IsShared) (sym steps) h
  | inl valid ↦
      let (m, there, reads) = read-ReadAs p i s ptr size h e valid buffer positive small in
      let ((t, got), steps, reported) =
        Returns-ok (ReadAs m s size) (read p.mappings s ptr size) reads in
      let after : read_stream i ptr size s p ≡ ok (record p { streams = set p.streams i t }) =
        ground (arith, valid, steps) in
      subst (Returns IsShared) (sym after) (moved p s m t got h e valid reported)
]
  where
    moved :
        (p : Program) (s : Stream) (m : Mapping) (t : Stream) (got : Option (List ℕ))
        → IsShared p
        → get_elem? p.streams i ≡ some s
        → s.valid ≡ true
        → ReadAs m s size (t, got)
        → IsShared (record p { streams = set p.streams i t })
    moved p s m t none h e valid (same, _) =
        moved-IsShared p i s t h e (ap (λ x. x.valid) same) (ap (λ x. x.mapping) same) (
          subst (IsUsing p.mappings) (sym same)
            (All-get_elem? (IsUsing p.mappings) p.streams i s h.using e))
    moved p s m t (some bytes) h e valid (_, _, same, inside) =
        let (m2, there, size2, _, small2) =
          All-get_elem? (IsUsing p.mappings) p.streams i s h.using e valid in
        moved-IsShared p i s t h e (ap (λ x. x.valid) same) (ap (λ x. x.mapping) same)
          (subst (IsUsing p.mappings) (sym same) (λ v. (m2, there, size2, inside, small2)))

seek-Returns :
    (i pos : ℕ) (goes_on : Bool) (s : Stream) (p : Program)
    → IsShared p
    → get_elem? p.streams i ≡ some s
    → goes_on ≡ true
    → Returns IsShared (call_at (seek_to i pos goes_on) s p)
unfolding call_at seek
seek-Returns i pos goes_on s p h e returns =
    let u = All-get_elem? (IsUsing p.mappings) p.streams i s h.using e in
    elim (Bool-cases (leb (2 ^ 63) pos || leb s.filesize pos)) [
      | inl refused ↦
          let stays : call_at (seek_to i pos goes_on) s p
              ≡ ok (record p { streams = set p.streams i s }) =
            ground (arith, refused) in
          subst (Returns IsShared) (sym stays) (moved-IsShared p i s s h e refl refl u)
      | inr within ↦
          let goes : call_at (seek_to i pos goes_on) s p
              ≡ ok (record p { streams = set p.streams i (record s { fpos = pos }) }) =
            ground (arith, within, returns) in
          subst (Returns IsShared) (sym goes) (
            moved-IsShared p i s (record s { fpos = pos }) h e refl refl
              (λ valid.
                let (m, there, size, _, small) = u valid in
                (m, there, size, ground (arith, within), small)))
    ]

-- A stream that is gone.
removed-IsShared :
    (i : ℕ) (s : Stream) (p : Program) (m : Mapping)
    → IsShared p
    → get_elem? p.streams i ≡ some s
    → get_elem? p.mappings s.mapping ≡ some m
    → s.valid ≡ true
    → 0 < m.count
    → m.mapped ≡ true
    → let n = record m {
      count = m.count - 1;
      mapped = if m.count - 1 == 0 then false else m.mapped;
    } in
      IsShared (record { mappings = set p.mappings s.mapping n; streams = remove_at i p.streams })
removed-IsShared i s p m h e there valid some_user mapped =
    let n = record m {
      count = m.count - 1;
      mapped = if m.count - 1 == 0 then false else m.mapped;
    } in
    record {
      using = All-remove_at (IsUsing (set p.mappings s.mapping n)) i p.streams (
          IsUsing-Keeps p.mappings _ p.streams (set-Keeps p.mappings s.mapping m n there refl)
            h.using);
      counts = λ j x found. elim (set_cases p.mappings s.mapping m n j x there found) [
        | inl (index, new) ↦
            let (count, _) = h.counts s.mapping m there in
            let own : (s.mapping == j) ≡ true = ground (arith, index) in
            let same : users s.mapping p.streams ≡ users j p.streams =
              ap (λ k. users k p.streams) index in
            rw new (
              ground (arith, count, same, users-remove_at j i p.streams s e, own, valid),
              ground (arith, mapped, some_user),
            )
        | inr (other, old) ↦
            let (count, there_still) = h.counts j x old in
            (ground (arith, count, users-remove_at j i p.streams s e, other), there_still)
      ];
    }

close-Returns :
    (i : ℕ) (unlocked : Bool) (s : Stream) (p : Program)
    → IsShared p
    → get_elem? p.streams i ≡ some s
    → unlocked ≡ true
    → Returns IsShared (call_at (close i unlocked) s p)
unfolding call_at destroy
close-Returns i unlocked s p h e clean = elim (Bool-cases s.valid) [
  | inr invalid ↦
      let steps : call_at (close i unlocked) s p
          ≡ ok (record p { streams = remove_at i p.streams }) =
        ground (arith, invalid) in
      subst (Returns IsShared) (sym steps) (record {
        using = All-remove_at (IsUsing p.mappings) i p.streams h.using;
        counts = λ j m there.
            let (count, mapped) = h.counts j m there in
            (ground (arith, count, users-remove_at j i p.streams s e, invalid), mapped);
      })
  | inl valid ↦
      let (m, there, _, _, _, mapped, some_user) = stream_mapped p i s h e valid in
      let n = record m {
        count = m.count - 1;
        mapped = if m.count - 1 == 0 then false else m.mapped;
      } in
      let q : Program = record {
        mappings = set p.mappings s.mapping n;
        streams = remove_at i p.streams;
      } in
      let steps : call_at (close i unlocked) s p ≡ ok q =
        ground (arith, valid, there, some_user, clean) in
      subst (Returns IsShared) (sym steps)
        (removed-IsShared i s p m h e there valid some_user mapped)
]

call_at-Returns :
    (c : Call) (s : Stream) (p : Program)
    → IsSane c
    → IsShared p
    → stream_of c p ≡ some s
    → Returns IsShared (call_at c s p)
unfolding call_at
call_at-Returns (open_file o) s p sane h e = open_stream-Returns o p sane h
call_at-Returns (copy memory locked i) s p sane h e =
    copy_stream-Returns memory s locked i p h e sane
call_at-Returns (read_from i ptr size) s p (buffer, positive, small) h e =
    read_stream-Returns i size ptr s p h e buffer positive small
call_at-Returns (seek_to i pos goes_on) s p sane h e = seek-Returns i pos goes_on s p h e sane
call_at-Returns (close i unlocked) s p sane h e = close-Returns i unlocked s p h e sane

step-Returns_lem : (c : Call) (p : Program) → IsSane c → IsShared p → Returns IsShared (step c p)
unfolding step
step-Returns_lem c p sane h = elim (Option-cases (stream_of c p)) [
  | inl gone ↦
      let steps : step c p ≡ ok p = ground (arith, gone) in subst (Returns IsShared) (sym steps) h
  | inr (s, there) ↦
      let steps : step c p ≡ call_at c s p = ground (arith, there) in
      subst (Returns IsShared) (sym steps) (call_at-Returns c s p sane h there)
]

run-Returns_lem :
    (calls : List Call) (p : Program)
    → All IsSane calls
    → IsShared p
    → Returns IsShared (run calls p)
unfolding run
run-Returns_lem [] p sane h = h
run-Returns_lem (c ∷ calls) p (sane, more) h =
    Returns-bind IsShared IsShared (step c p) (run calls) (step-Returns_lem c p sane h)
      (λ q shared. run-Returns_lem calls q more shared)

-- Whatever a program opens, copies, reads, seeks and closes, one call after the other in whatever
-- order, with files and sizes of less than 2 ^ 62, no read of size 0 or into a null pointer,
-- pthread_mutex_init and pthread_mutex_destroy returning 0, and a seek that succeeds returning though
-- it has no return statement: no assert of a stream is tripped, no byte is read outside of a mapping
-- or after munmap, and at any time *count is the number of valid streams that are alive with a
-- mapping, the mapping is there exactly while there is one, and each of them stands inside its file.
pub run-Returns :
    (calls : List Call) → All IsSane calls → Returns IsShared (run calls empty_program)
run-Returns calls sane =
    run-Returns_lem calls empty_program sane (record { using = tt; counts = λ j m e. cc e })

-- A read of a valid stream that is alive, of 1 to 2 ^ 62 - 1 bytes into a buffer that is not null,
-- after whatever calls, with the same conditions, have led to the program: where it would pass the end of the file it returns -1 and leaves the stream as it is, and otherwise it
-- returns the bytes of the file at its position, as many as asked for, and moves behind them, no
-- further than the end.
pub run-ReadAs :
    (calls : List Call) (p : Program) (i : ℕ) (s : Stream) (ptr : Bool) (size : ℕ)
    → All IsSane calls
    → run calls empty_program ≡ ok p
    → get_elem? p.streams i ≡ some s
    → s.valid ≡ true
    → ptr ≡ true
    → 0 < size
    → size < 2 ^ 62
    → (m : Mapping) × (get_elem? p.mappings s.mapping ≡ some m)
      × Returns (ReadAs m s size) (read p.mappings s ptr size)
run-ReadAs calls p i s ptr size sane runs e valid buffer positive small =
    let h : IsShared p = subst (Returns IsShared) runs (run-Returns calls sane) in
    read-ReadAs p i s ptr size h e valid buffer positive small
