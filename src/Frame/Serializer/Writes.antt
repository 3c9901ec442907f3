-- ===== src/Frame/Serializer/Writes.antt =====
-- What is written goes behind what was written before, and the memory grows as it has to.
use mahjong_server.Common.{
  ℕ, ◌+◌, ◌-◌, ◌*◌, ◌^◌, ◌≤◌, ◌<◌, leb, leb-false, ◌≡◌, refl, ap, sym, subst, ◌∙◌, Bool, true,
  false, not, List, [], ◌++◌, Option, none, some, ltb-true, ltb-false, leb-cases, inl, inr,
  if◌then◌else◌, length, arith,
}
use mahjong_server.Frame.Bytes.{copy_to, bytes_at}
use mahjong_server.Frame.Bytes.Laws.{
  length-copy_to, length-bytes_at, bytes_at-copy_to, copied_behind, split_at_row, bytes_at_same,
  bytes_at-add,
}
use mahjong_server.Frame.Binary.{Written, write, write_buffer, to_bytes}
use mahjong_server.Frame.Binary.Loops.{length-in_order}
use mahjong_server.Frame.Binary.RoundTrip.{stored, write-stored}
use mahjong_server.Frame.Serializer.{
  Serializer, with_written, larger, memory_of, make_room, write_check, write_value, write_bytes_of,
}

-- What was written so far.
abbrev pub content : Serializer → List ℕ
content s = bytes_at 0 s.index (memory_of s.buffer)

pub record IsWriter (s : Serializer) : Type 0 where
  pub writes : s.write_flag ≡ true
  pub allocated : length (memory_of s.buffer) ≡ s.buffer_size
  pub inside : s.index ≤ s.buffer_size

-- A part of memory in front of what a copy reaches into larger memory.
front_kept :
    (n m : ℕ) (memory fresh : List ℕ)
    → n ≤ m
    → m ≤ length fresh
    → bytes_at 0 n (copy_to 0 (bytes_at 0 m memory) fresh) ≡ bytes_at 0 n memory
front_kept n m memory fresh h room =
    let k = length-bytes_at 0 m memory in
    let part = bytes_at 0 n memory in
    let e : bytes_at 0 m (copy_to 0 (bytes_at 0 m memory) fresh)
        ≡ part ++ bytes_at n (m - n) memory =
      ap (λ j. bytes_at 0 j (copy_to 0 (bytes_at 0 m memory) fresh)) (sym k)
      ∙ bytes_at-copy_to 0 (bytes_at 0 m memory) fresh (omega arith)
      ∙ bytes_at_same memory 0 0 m (n + (m - n)) refl (omega arith)
      ∙ bytes_at-add 0 n (m - n) n memory (omega arith) in
    ap (λ j. bytes_at 0 j (copy_to 0 (bytes_at 0 m memory) fresh))
      (sym (length-bytes_at 0 n memory))
    ∙ (split_at_row part (bytes_at n (m - n) memory) 0 m (copy_to 0 (bytes_at 0 m memory) fresh)
        e).0

-- Bytes put behind the content, in memory that has room for them.
appended :
    (bytes : List ℕ) (n : ℕ) (t : Serializer)
    → IsWriter t
    → length bytes ≡ n
    → t.index + n ≤ t.buffer_size
    → IsWriter (record t {
      buffer = some (copy_to t.index bytes (memory_of t.buffer));
      index = t.index + n;
    })
      × (bytes_at 0 (t.index + n) (copy_to t.index bytes (memory_of t.buffer)) ≡ content t ++ bytes)
appended bytes n t ok e room =
    let memory = memory_of t.buffer in
    (
      record {
        writes = ok.writes;
        allocated = length-copy_to t.index bytes memory ∙ ok.allocated;
        inside = room;
      },
      ap (λ k. bytes_at 0 (t.index + k) (copy_to t.index bytes memory)) (sym e)
          ∙ copied_behind 0 t.index t.index bytes memory (omega arith)
              (omega (arith, ok.allocated)),
    )

abbrev serializer_of : Option (List ℕ) → ℕ → ℕ → Bool → Bool → Serializer
serializer_of buffer index size flag over = record {
  buffer = buffer;
  index = index;
  buffer_size = size;
  write_flag = flag;
  overflowed = over;
}

in_int-false : (n : ℕ) (b : Bool) → n < 2 ^ 31 → (if leb (2 ^ 31) n then true else b) ≡ b
in_int-false n b h = rw (leb-false (2 ^ 31) n h) refl

-- What a write of `len` bytes leaves, beside the bytes.
pub record Writes (len : ℕ) (s t : Serializer) : Type 0 where
  pub is_writer : IsWriter t
  pub index : t.index ≡ s.index + len
  pub defined : s.index + len ≤ 2 ^ 30 → t.overflowed ≡ s.overflowed

larger_lem : (a b : ℕ) → (a ≤ larger a b) × (b ≤ larger a b)
larger_lem a b = ground arith

-- Writing goes on where the serializer was, with room for what is to be written.
pub record HasRoom (len : ℕ) (s t : Serializer) : Type 0 where
  is_writer : IsWriter t
  same_content : content t ≡ content s
  room : t.index + len ≤ t.buffer_size
  same_index : t.index ≡ s.index
  defined : s.index + len ≤ 2 ^ 30 → t.overflowed ≡ s.overflowed

module _ (new_array : ℕ → List ℕ) (length-new_array : (n : ℕ) → length (new_array n) ≡ n) where
  make_room-HasRoom :
      (len : ℕ) (buffer : Option (List ℕ)) (index size : ℕ) (flag over : Bool)
      → IsWriter (serializer_of buffer index size flag over)
      → HasRoom len
          (serializer_of buffer index size flag over)
          (make_room new_array len buffer (serializer_of buffer index size flag over))
  make_room-HasRoom len none index size flag over ok = record {
    is_writer = record {
      writes = ok.writes;
      allocated = length-new_array len;
      inside = omega (arith, ok.inside, ok.allocated);
    };
    same_content =
        ap (λ i. bytes_at 0 i (new_array len)) {x = index} {y = 0}
          (omega (arith, ok.inside, ok.allocated))
        ∙ ap (λ i. bytes_at 0 i []) {x = 0} {y = index} (omega (arith, ok.inside, ok.allocated));
    room = omega (arith, ok.inside, ok.allocated);
    same_index = refl;
    defined = λ h. refl;
  }
  make_room-HasRoom len (some memory) index size flag over ok =
      elim (leb-cases (len + index) size) [
        | inl fits ↦ rw (ltb-false size (len + index) fits) (record {
          is_writer = record { writes = ok.writes; allocated = ok.allocated; inside = ok.inside };
          same_content = refl;
          room = omega arith;
          same_index = refl;
          defined = λ h. in_int-false (len + index) over (omega arith);
        })
        | inr full ↦
            let l = larger_lem (len + index) (size * 2) in
            let n = length-new_array (larger (len + index) (size * 2)) in
            rw (ltb-true size (len + index) full) (record {
              is_writer = record {
                writes = ok.writes;
                allocated =
                    length-copy_to 0 (bytes_at 0 size memory)
                      (new_array (larger (len + index) (size * 2)))
                    ∙ n;
                inside = omega (arith, ok.inside, l);
              };
              same_content =
                  front_kept index size memory (new_array (larger (len + index) (size * 2)))
                    ok.inside (omega (arith, l, n));
              room = omega (arith, l);
              same_index = refl;
              defined = λ h.
                  in_int-false (size * 2) (if leb (2 ^ 31) (len + index) then true else over)
                    (omega arith)
                  ∙ in_int-false (len + index) over (omega arith);
            })
      ]

  abbrev roomy : ℕ → Serializer → Serializer
  roomy len s = make_room new_array len s.buffer s

  check_lem :
      (len : ℕ) (s : Serializer) → IsWriter s → write_check new_array len s ≡ (true, roomy len s)
  unfolding write_check
  check_lem len s ok = ap (λ b. if not b then (false, s) else (true, roomy len s)) ok.writes

  length-stored_value : (size value : ℕ) → length (stored false size value) ≡ size
  length-stored_value size value = length-in_order false size (to_bytes size value) size 0

  pub write_value_lem :
      (size value : ℕ) (s : Serializer)
      → IsWriter s
      → Writes size s (write_value new_array size value s)
        × (content (write_value new_array size value s) ≡ content s ++ stored false size value)
  unfolding write_value
  write_value_lem size value s ok =
      let t = roomy size s in
      let r = make_room-HasRoom size s.buffer s.index s.buffer_size s.write_flag s.overflowed ok in
      let a =
        appended (stored false size value) size t r.is_writer (length-stored_value size value)
          r.room in
      let done : write_value new_array size value s ≡ record t {
        buffer = some (copy_to t.index (stored false size value) (memory_of t.buffer));
        index = t.index + size;
      } =
        ap
          (λ c.
            if c.0
            then with_written c.1
                (write size (memory_of c.1.buffer) c.1.buffer_size c.1.index value false)
            else s)
          (check_lem size s ok)
        ∙ ap (with_written t)
            (write-stored false size t.index value t.buffer_size (memory_of t.buffer) r.room) in
      (
        record {
          is_writer = subst IsWriter (sym done) a.0;
          index = ap (λ w. w.index) done ∙ ap (λ k. k + size) r.same_index;
          defined = λ h. ap (λ w. w.overflowed) done ∙ r.defined h;
        },
        ap content done ∙ a.1 ∙ ap (λ l. l ++ stored false size value) r.same_content,
      )

  pub write_bytes_of_lem :
      (bytes : List ℕ) (s : Serializer)
      → IsWriter s
      → Writes (length bytes) s (write_bytes_of new_array bytes s)
        × (content (write_bytes_of new_array bytes s) ≡ content s ++ bytes)
  unfolding write_bytes_of write_buffer
  write_bytes_of_lem bytes s ok =
      let t = roomy (length bytes) s in
      let r =
        make_room-HasRoom (length bytes) s.buffer s.index s.buffer_size s.write_flag s.overflowed
          ok in
      let a = appended bytes (length bytes) t r.is_writer refl r.room in
      let w : Written = record {
        done = true;
        index = t.index + length bytes;
        buffer = copy_to t.index bytes (memory_of t.buffer);
      } in
      let done : write_bytes_of new_array bytes s ≡ with_written t w =
        ap
          (λ c.
            if c.0
            then with_written c.1
                (write_buffer (memory_of c.1.buffer) c.1.buffer_size c.1.index bytes)
            else s)
          (check_lem (length bytes) s ok)
        ∙ ap
            (λ b. with_written t (
              if b
              then record { done = false; index = t.index; buffer = memory_of t.buffer }
              else w))
            (ltb-false t.buffer_size (t.index + length bytes) r.room) in
      (
        record {
          is_writer = subst IsWriter (sym done) a.0;
          index = ap (λ w. w.index) done ∙ ap (λ k. k + length bytes) r.same_index;
          defined = λ h. ap (λ w. w.overflowed) done ∙ r.defined h;
        },
        ap content done ∙ a.1 ∙ ap (λ l. l ++ bytes) r.same_content,
      )
