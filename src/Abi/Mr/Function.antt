-- ===== src/Abi/Mr/Function.antt =====
-- `parse_function` (crates/vmrp-abi/src/mr.rs) on any bytes: its recursion and its loops end.
use vmrp_rust.Prelude.{
  ℕ, zero, suc, ◌+◌, ◌*◌, ◌<◌, ◌≤◌, ◌^◌, ◌≡◌, ◌∙◌, refl, ap, sym, Option, Bool, true, false, length,
  ◌==◌, if◌then◌else◌, arith,
}
use vmrp_rust.Abi.{Bytes}
use vmrp_rust.Abi.Outcome.{Outcome}
use vmrp_rust.Abi.Mr.{
  String, MrFunction, MrChunkError, Parser, and_then, pure, times, collect, ◌>>=◌, ◌>>◌,
}
use vmrp_rust.Abi.Mr.Cursor.{skip, read_u8, word_at, read_count, read_string}
use vmrp_rust.Abi.Mr.Parse.{skip_local, skip_upvalue, skip_constant, with_capacity, parse_function}
use vmrp_rust.Abi.Mr.Ends.{
  CannotAllocate, Ends, answered, refused, Advanced, Moves, bind-Moves, weaken-Moves, pure-Moves,
  reject_if-Moves, times-Moves, collect-Moves, skip-Moves, read_u8-Moves, read_u32-Moves,
  read_count-Moves, read_count-Counts, weaken-Ends, failed, read_string-Moves,
}

module _ (from_utf8_lossy : Bytes → String) (bytes : Bytes) (order : Bool) (number_size : ℕ)
    (can_allocate : ℕ → Bool) where
  -- A parser of any length, and then others.
  then-Moves :
      {A B : Type 0} (lo least : ℕ) (p : Parser A) (f : A → Parser B)
      → Moves (CannotAllocate can_allocate bytes) bytes lo least p
      → ((a : A) → Moves (CannotAllocate can_allocate bytes) bytes lo 0 (f a))
      → Moves (CannotAllocate can_allocate bytes) bytes lo 0 (p >>= f)
  then-Moves lo least p f h k =
      bind-Moves (CannotAllocate can_allocate bytes) bytes lo 0 p f
        (weaken-Moves (CannotAllocate can_allocate bytes) bytes lo lo least p (omega arith) h)
        (λ a.
          weaken-Moves (CannotAllocate can_allocate bytes) bytes (lo + 0) lo 0 (f a) (omega arith)
            (k a))

  skip_local-Moves :
      (lo : ℕ)
      → Moves
          (CannotAllocate can_allocate bytes)
          bytes
          lo
          0
          (skip_local from_utf8_lossy bytes order number_size)
  unfolding skip_local
  skip_local-Moves lo =
      then-Moves lo 4 _ _
        (read_string-Moves (CannotAllocate can_allocate bytes) bytes order from_utf8_lossy lo)
        (λ _.
          then-Moves lo 4 _ _ (read_u32-Moves (CannotAllocate can_allocate bytes) bytes order lo)
            (λ _.
              then-Moves lo 4 _ _
                (read_u32-Moves (CannotAllocate can_allocate bytes) bytes order lo)
                (λ _. reject_if-Moves (CannotAllocate can_allocate bytes) bytes lo _)))

  string-Moves :
      (lo : ℕ)
      → Moves
          (CannotAllocate can_allocate bytes)
          bytes
          lo
          0
          (read_string bytes order from_utf8_lossy >>= λ _. pure tt)
  string-Moves lo =
      then-Moves lo 4 _ _
        (read_string-Moves (CannotAllocate can_allocate bytes) bytes order from_utf8_lossy lo)
        (λ _. pure-Moves (CannotAllocate can_allocate bytes) bytes lo tt)

  skip_upvalue-Moves :
      (lo : ℕ)
      → Moves
          (CannotAllocate can_allocate bytes)
          bytes
          lo
          0
          (skip_upvalue from_utf8_lossy bytes order number_size)
  unfolding skip_upvalue
  skip_upvalue-Moves lo = string-Moves lo

  if-Moves :
      {A : Type 0} (lo : ℕ) (t : Bool) (p q : Parser A)
      → Moves (CannotAllocate can_allocate bytes) bytes lo 0 p
      → Moves (CannotAllocate can_allocate bytes) bytes lo 0 q
      → Moves (CannotAllocate can_allocate bytes) bytes lo 0 (if t then p else q)
  if-Moves lo true p q h k = h
  if-Moves lo false p q h k = k

  skip_constant-Moves :
      (lo : ℕ)
      → Moves
          (CannotAllocate can_allocate bytes)
          bytes
          lo
          0
          (skip_constant from_utf8_lossy bytes order number_size)
  unfolding skip_constant
  skip_constant-Moves lo =
      then-Moves lo 1 _ _ (read_u8-Moves (CannotAllocate can_allocate bytes) bytes lo) (λ tag.
        if-Moves lo (tag == 0) _ _ (pure-Moves (CannotAllocate can_allocate bytes) bytes lo tt) (
          if-Moves lo (tag == 3) _ _
            (weaken-Moves (CannotAllocate can_allocate bytes) bytes lo lo number_size _
              (omega arith) (skip-Moves (CannotAllocate can_allocate bytes) bytes lo number_size))
            (if-Moves lo (tag == 4) _ _ (string-Moves lo)
              (reject_if-Moves (CannotAllocate can_allocate bytes) bytes lo true))))

  counted :
      {A : Type 0} (lo : ℕ) (f : ℕ → Parser A)
      → ((v : ℕ) → Moves (CannotAllocate can_allocate bytes) bytes lo 0 (f v))
      → Moves (CannotAllocate can_allocate bytes) bytes lo 0 (read_count bytes order >>= f)
  counted lo f h =
      then-Moves lo 4 (read_count bytes order) f
        (read_count-Moves (CannotAllocate can_allocate bytes) bytes order lo) h

  byte :
      {A : Type 0} (lo : ℕ) (f : ℕ → Parser A)
      → ((v : ℕ) → Moves (CannotAllocate can_allocate bytes) bytes lo 0 (f v))
      → Moves (CannotAllocate can_allocate bytes) bytes lo 0 (read_u8 bytes >>= f)
  byte lo f h =
      then-Moves lo 1 (read_u8 bytes) f (read_u8-Moves (CannotAllocate can_allocate bytes) bytes lo)
        h

  skipped :
      {A : Type 0} (lo width : ℕ) (p : Parser A)
      → Moves (CannotAllocate can_allocate bytes) bytes lo 0 p
      → Moves (CannotAllocate can_allocate bytes) bytes lo 0 (skip bytes width >> p)
  skipped lo width p h =
      then-Moves lo width (skip bytes width) (λ _. p)
        (skip-Moves (CannotAllocate can_allocate bytes) bytes lo width) (λ _. h)

  repeated :
      {A : Type 0} (lo n : ℕ) (p : Parser (Unit {0})) (q : Parser A)
      → Moves (CannotAllocate can_allocate bytes) bytes lo 0 p
      → Moves (CannotAllocate can_allocate bytes) bytes lo 0 q
      → Moves (CannotAllocate can_allocate bytes) bytes lo 0 (times n p >> q)
  repeated lo n p q h k =
      then-Moves lo 0 (times n p) (λ _. q)
        (times-Moves (CannotAllocate can_allocate bytes) bytes lo n p h) (λ _. k)

  -- A count, a vector for that many, and then another parser.
  allocated :
      {A : Type 0} (lo : ℕ) (f : ℕ → Parser A)
      → ((v : ℕ) → Moves (CannotAllocate can_allocate bytes) bytes lo 0 (f v))
      → Moves (CannotAllocate can_allocate bytes) bytes lo 0 (
          read_count bytes order >>= λ n.
          (with_capacity from_utf8_lossy bytes order number_size can_allocate n >> f n))
  unfolding with_capacity
  allocated {A = A} lo f h pos above below =
      and_then-Counts (read_count bytes order pos)
        (read_count-Counts (CannotAllocate can_allocate bytes) bytes order pos below)
    where
      granted_or_not :
          (n p : ℕ)
          → p ≡ pos + 4
          → pos + 4 ≤ length bytes
          → n ≡ word_at bytes order pos
          → word_at bytes order pos < 2 ^ 31
          → Advanced (CannotAllocate can_allocate bytes) bytes pos 0 (
              and_then
                (with_capacity from_utf8_lossy bytes order number_size can_allocate n p)
                (λ _. f n))
      granted_or_not n p there inside same small =
          elim (can_allocate n)
              as (λ t.
                can_allocate n ≡ t
                → Advanced (CannotAllocate can_allocate bytes) bytes pos 0
                    (and_then (if t then Outcome.ok (tt, p) else Outcome.panicked) (λ _. f n))) [
                      | true ↦ λ q.
                          weaken-Ends (h n p (omega (arith, there)) (omega (arith, there, inside)))
                            (λ r g. (omega (arith, there, g.0), g.1))
                      | false ↦ λ q. refused (record {
                        position = pos;
                        little_endian = order;
                        inside = inside;
                        is_count = small;
                        not_granted = ap can_allocate (sym same) ∙ q;
                      })
                    ]
            refl

      and_then-Counts :
          (x : Outcome MrChunkError (ℕ × ℕ))
          → Ends
              (CannotAllocate can_allocate bytes)
              (λ r.
                (r.1 ≡ pos + 4)
                × (pos + 4 ≤ length bytes)
                × (r.0 ≡ word_at bytes order pos)
                × (word_at bytes order pos < 2 ^ 31))
              x
          → Advanced (CannotAllocate can_allocate bytes) bytes pos 0 (
              and_then x (λ n.
                (with_capacity from_utf8_lossy bytes order number_size can_allocate n >> f n)))
      and_then-Counts _ failed = failed
      and_then-Counts _ (refused r) = refused r
      and_then-Counts _ (answered {a} g) = granted_or_not a.0 a.1 g.0 g.1 g.2 g.3

  -- A function after its source and line, with a parser of nested functions.
  abbrev body_of : Option String → ℕ → Parser MrFunction → Parser MrFunction
  body_of source line_defined inner = do
    nups ← read_u8 bytes
    num_params ← read_u8 bytes
    is_vararg ← read_u8 bytes
    max_stack_size ← read_u8 bytes
    line_count ← read_count bytes order
    skip bytes (line_count * 4)
    local_count ← read_count bytes order
    times local_count (skip_local from_utf8_lossy bytes order number_size)
    upvalue_count ← read_count bytes order
    times upvalue_count (skip_upvalue from_utf8_lossy bytes order number_size)
    constant_count ← read_count bytes order
    times constant_count (skip_constant from_utf8_lossy bytes order number_size)
    child_count ← read_count bytes order
    with_capacity from_utf8_lossy bytes order number_size can_allocate child_count
    children ← collect child_count inner
    code_count ← read_count bytes order
    skip bytes (code_count * 4)
    pure (
        MrFunction.function source line_defined nups num_params is_vararg max_stack_size line_count
          local_count upvalue_count constant_count code_count children)

  body_of-Moves :
      (source : Option String) (line_defined : ℕ) (inner : Parser MrFunction) (lo : ℕ)
      → Moves (CannotAllocate can_allocate bytes) bytes lo 0 inner
      → Moves (CannotAllocate can_allocate bytes) bytes lo 0 (body_of source line_defined inner)
  body_of-Moves source line_defined inner lo h = byte lo _ (λ _. byte lo _ (λ _. byte lo _ (λ _.
      byte lo _ (λ _. counted lo _ (λ line_count. skipped lo (line_count * 4) _ (
        counted lo _ (λ local_count. repeated lo local_count _ _ (skip_local-Moves lo) (
          counted lo _ (λ upvalue_count. repeated lo upvalue_count _ _ (skip_upvalue-Moves lo) (
            counted lo _ (λ constant_count.
              repeated lo constant_count _ _ (skip_constant-Moves lo) (
                allocated lo _ (λ child_count.
                  then-Moves lo 0 _ _
                    (collect-Moves (CannotAllocate can_allocate bytes) bytes lo child_count inner h)
                    (λ children. counted lo _ (λ code_count.
                      skipped lo (code_count * 4) _
                        (pure-Moves (CannotAllocate can_allocate bytes) bytes lo _))))))))))))))))

  -- With fuel for the bytes from `lo` on, a function is read and takes at least four bytes, is
  -- rejected, or asks for a vector that cannot be allocated.
  pub parse_function-Moves :
      (fuel lo : ℕ)
      → length bytes < lo + fuel
      → Moves
          (CannotAllocate can_allocate bytes)
          bytes
          lo
          4
          (parse_function from_utf8_lossy bytes order number_size can_allocate fuel)
  unfolding parse_function
  parse_function-Moves zero lo h pos above below = absurd (omega (arith, h, above, below))
  parse_function-Moves (suc fuel) lo h pos above below =
      bind-Moves (CannotAllocate can_allocate bytes) bytes lo 4 _ _
        (read_string-Moves (CannotAllocate can_allocate bytes) bytes order from_utf8_lossy lo)
        (λ source. counted (lo + 4) _ (λ line_defined.
          body_of-Moves source line_defined _ (lo + 4) (
            weaken-Moves (CannotAllocate can_allocate bytes) bytes (lo + 4) (lo + 4) 4 _
              (omega arith) (parse_function-Moves fuel (lo + 4) (omega (arith, h))))))
        pos above below
