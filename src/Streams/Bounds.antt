-- ===== src/Streams/Bounds.antt =====
-- Whatever a program does with its streams, they read inside their files.
use bootcamp.Base.{
  length-take, ℕ, ◌+◌, ◌^◌, ◌≤◌, ◌<◌, ◌≡◌, ◌∙◌, refl, sym, ap, subst, Bool, true, false, Bool-cases,
  inl, inr, Option, none, some, List, [], ◌∷◌, ◌++◌, All-append, ltb, ◌==◌, length, drop, take,
  length-drop, set, get_elem?, arith, ok, Returns,
}
use bootcamp.Wire.{read_bytes}
use bootcamp.ChainReader.Lookup.{
  get_elem?-append_left, get_elem?-last, get_elem?-snoc, get_elem?-lt,
}
use bootcamp.ChunkReader.Order.{All-get_elem?}
use bootcamp.Streams.{
  Mapping, Stream, Program, Opened, no_file, no_map, contents, invalid_stream, add_stream,
  open_stream, copy_stream, copy_out, read, Call, open_file, copy, read_from, seek_to, close,
}
use bootcamp.Streams.Sharing.{
  uses, users, IsUsing, IsShared, users-append, users-remove_at, users-set, users-none, All-set,
  Keeps, IsUsing-Keeps, set-Keeps, set_cases,
}

-- What the calls are given: a read has a buffer and a positive size, files and sizes are below
-- 2 ^ 62, so that no sum leaves a long, pthread_mutex_init and pthread_mutex_destroy return 0, and a
-- seek that succeeds returns though it has no return statement.
abbrev pub IsSane : Call → Type 0
IsSane (open_file (contents bytes locked)) = (length bytes < 2 ^ 62) × (locked ≡ true)
IsSane (open_file o) = Unit
IsSane (copy memory locked i) = locked ≡ true
IsSane (read_from i ptr size) = (ptr ≡ true) × (0 < size) × (size < 2 ^ 62)
IsSane (seek_to i pos goes_on) = goes_on ≡ true
IsSane (close i unlocked) = unlocked ≡ true

-- A stream that is not valid is one more.
pub invalid-IsShared :
    (p : Program) (s : Stream)
    → IsShared p
    → s.valid ≡ false
    → IsShared (record p { streams = p.streams ++ (s ∷ []) })
invalid-IsShared p s h e = record {
  using =
      All-append (IsUsing p.mappings) p.streams (s ∷ []) h.using
        ((λ valid. absurd (cc (e, valid))), tt);
  counts = λ j m there.
      let (count, mapped) = h.counts j m there in
      (ground (arith, count, users-append j p.streams (s ∷ []), e), mapped);
}

add_stream-IsShared :
    (bytes : List ℕ) (p : Program)
    → length bytes < 2 ^ 62
    → IsShared p
    → IsShared (add_stream bytes p)
unfolding add_stream
add_stream-IsShared bytes p sane h =
    let n = length p.mappings in
    let fin : Stream = record { valid = true; mapping = n; fpos = 0; filesize = length bytes } in
    let m : Mapping = record { bytes = bytes; mapped = true; count = 1 } in
    let keeps : Keeps p.mappings (p.mappings ++ (m ∷ [])) =
      λ j x e. (x, get_elem?-append_left p.mappings (m ∷ []) j x e, refl) in
    record {
      using =
          All-append (IsUsing (p.mappings ++ (m ∷ []))) p.streams (fin ∷ [])
            (IsUsing-Keeps p.mappings _ p.streams keeps h.using)
            ((λ valid. (m, get_elem?-last p.mappings m, refl, omega arith, sane)), tt);
      counts = λ j x e. elim (get_elem?-snoc p.mappings m x j e) [
        | inl old ↦
            let (count, mapped) = h.counts j x old in
            let below = get_elem?-lt p.mappings j x old in
            let apart : (n == j) ≡ false = ground (arith, below) in
            (ground (arith, count, users-append j p.streams (fin ∷ []), apart), mapped)
        | inr (at_end, new) ↦
            let unused = users-none j p.mappings p.streams h.using (omega (arith, at_end)) in
            let own : (n == j) ≡ true = ground (arith, at_end) in
            rw new (ground (arith, unused, users-append j p.streams (fin ∷ []), own), refl)
      ];
    }

pub open_stream-Returns :
    (o : Opened) (p : Program)
    → IsSane (open_file o)
    → IsShared p
    → Returns IsShared (open_stream o p)
unfolding open_stream
open_stream-Returns no_file p sane h = invalid-IsShared p (invalid_stream 0) h refl
open_stream-Returns (no_map size) p sane h = invalid-IsShared p (invalid_stream size) h refl
open_stream-Returns (contents bytes locked) p (small, init) h =
    rw init (add_stream-IsShared bytes p small h)

-- A valid stream has a mapping that is there.
pub stream_mapped :
    (p : Program) (i : ℕ) (s : Stream)
    → IsShared p
    → get_elem? p.streams i ≡ some s
    → s.valid ≡ true
    → (m : Mapping) × (get_elem? p.mappings s.mapping ≡ some m)
      × (s.filesize ≡ length m.bytes)
      × (s.fpos ≤ s.filesize)
      × (s.filesize < 2 ^ 62)
      × (m.mapped ≡ true)
      × (0 < m.count)
stream_mapped p i s h e valid =
    let (m, there, size, inside, small) =
      All-get_elem? (IsUsing p.mappings) p.streams i s h.using e valid in
    let (count, mapped) = h.counts s.mapping m there in
    let own : (s.mapping == s.mapping) ≡ true = ground arith in
    let some_user : 0 < m.count =
      ground (arith, count, users-remove_at s.mapping i p.streams s e, valid, own) in
    (m, there, size, inside, small, ground (arith, mapped, some_user), some_user)

pub copy_stream-Returns :
    (memory s : Stream) (locked : Bool) (i : ℕ) (p : Program)
    → IsShared p
    → get_elem? p.streams i ≡ some s
    → locked ≡ true
    → Returns IsShared (copy_stream memory locked s p)
unfolding copy_stream
copy_stream-Returns memory s locked i p h e init = elim (Bool-cases s.valid) [
  | inr invalid ↦
      let t = record memory { valid = false } in
      let steps : copy_stream memory locked s p
          ≡ ok (record p { streams = p.streams ++ (t ∷ []) }) =
        ground (arith, invalid) in
      subst (Returns IsShared) (sym steps) (invalid-IsShared p t h refl)
  | inl valid ↦
      let (m, there, _, _, _, mapped, some_user) = stream_mapped p i s h e valid in
      let n = record m { count = m.count + 1 } in
      let q : Program = record {
        mappings = set p.mappings s.mapping n;
        streams = p.streams ++ (s ∷ []);
      } in
      let steps : copy_stream memory locked s p ≡ ok q = ground (arith, valid, there, init) in
      subst (Returns IsShared) (sym steps) (shared p s i m h e there valid mapped)
]
  where
    shared :
        (p : Program) (s : Stream) (i : ℕ) (m : Mapping)
        → IsShared p
        → get_elem? p.streams i ≡ some s
        → get_elem? p.mappings s.mapping ≡ some m
        → s.valid ≡ true
        → m.mapped ≡ true
        → IsShared (record {
          mappings = set p.mappings s.mapping (record m { count = m.count + 1 });
          streams = p.streams ++ (s ∷ []);
        })
    shared p s i m h e there valid mapped =
        let n = record m { count = m.count + 1 } in
        let still =
          IsUsing-Keeps p.mappings _ p.streams (set-Keeps p.mappings s.mapping m n there refl)
            h.using in
        record {
          using =
              All-append (IsUsing (set p.mappings s.mapping n)) p.streams (s ∷ []) still
                (All-get_elem? (IsUsing (set p.mappings s.mapping n)) p.streams i s still e, tt);
          counts = λ j x found. elim (set_cases p.mappings s.mapping m n j x there found) [
            | inl (index, new) ↦
                let (count, _) = h.counts s.mapping m there in
                let own : (s.mapping == j) ≡ true = ground (arith, index) in
                let same : users s.mapping p.streams ≡ users j p.streams =
                  ap (λ k. users k p.streams) index in
                rw new (
                  ground (arith, count, same, users-append j p.streams (s ∷ []), own, valid),
                  ground (arith, mapped),
                )
            | inr (other, old) ↦
                let (count, there_still) = h.counts j x old in
                (ground (arith, count, users-append j p.streams (s ∷ []), other), there_still)
          ];
        }

-- A stream that was moved inside its file.
pub moved-IsShared :
    (p : Program) (i : ℕ) (s t : Stream)
    → IsShared p
    → get_elem? p.streams i ≡ some s
    → t.valid ≡ s.valid
    → t.mapping ≡ s.mapping
    → IsUsing p.mappings t
    → IsShared (record p { streams = set p.streams i t })
moved-IsShared p i s t h e valid index u = record {
  using = All-set (IsUsing p.mappings) p.streams i t h.using u;
  counts = λ j m there.
      let (count, mapped) = h.counts j m there in
      let same : uses t j ≡ uses s j = ground (arith, valid, index) in
      (count ∙ sym (users-set j i p.streams s t e same), mapped);
}

-- osinstream_t::read of a valid stream that shares a mapping: it returns -1 where it would pass the
-- end of the file, and otherwise the bytes at its position.
abbrev pub ReadAs : Mapping → Stream → ℕ → Stream × Option (List ℕ) → Type 0
ReadAs m s size (t, none) = (t ≡ s) × (s.filesize < s.fpos + size)
ReadAs m s size (t, some bytes) =
    (bytes ≡ take size (drop s.fpos m.bytes))
    × (length bytes ≡ size)
    × (t ≡ record s { fpos = s.fpos + size })
    × (s.fpos + size ≤ s.filesize)

copy_out-take :
    (m : Mapping) (cpos size : ℕ)
    → m.mapped ≡ true
    → cpos + size ≤ length m.bytes
    → copy_out m cpos size ≡ ok (take size (drop cpos m.bytes))
unfolding copy_out read_bytes
copy_out-take m cpos size mapped fits = ground (arith, mapped, fits, length-drop cpos m.bytes)

pub read-ReadAs :
    (p : Program) (i : ℕ) (s : Stream) (ptr : Bool) (size : ℕ)
    → IsShared p
    → get_elem? p.streams i ≡ some s
    → s.valid ≡ true
    → ptr ≡ true
    → 0 < size
    → size < 2 ^ 62
    → (m : Mapping) × (get_elem? p.mappings s.mapping ≡ some m)
      × Returns (ReadAs m s size) (read p.mappings s ptr size)
unfolding read
read-ReadAs p i s ptr size h e valid buffer positive small =
    let (m, there, same, inside, short, mapped, _) = stream_mapped p i s h e valid in
    let some_bytes : ltb 0 size ≡ true = ground (arith, positive) in
    elim (Bool-cases (ltb s.filesize (s.fpos + size))) [
      | inl past ↦
          let steps : read p.mappings s ptr size ≡ ok (s, none) =
            ground (arith, past, buffer, positive, small, inside, short) in
          (m, there, subst (Returns (ReadAs m s size)) (sym steps) (refl, ground (arith, past)))
      | inr fits ↦
          let room : s.fpos + size ≤ length m.bytes = ground (arith, fits, same) in
          let steps : read p.mappings s ptr size
              ≡ ok (record s { fpos = s.fpos + size }, some (take size (drop s.fpos m.bytes))) =
            ground
              (arith, fits, buffer, positive, there, copy_out-take m s.fpos size mapped room) in
          (
            m,
            there,
            subst (Returns (ReadAs m s size)) (sym steps) (
              refl,
              omega
                  (arith, length-take size (drop s.fpos m.bytes), length-drop s.fpos m.bytes, room),
              refl,
              omega (arith, room, same),
            ),
          )
    ]
