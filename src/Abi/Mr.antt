-- ===== src/Abi/Mr.antt =====
-- crates/vmrp-abi/src/mr.rs: the compiled chunks of Mythroad, a header and a tree of functions. The
-- bytes, their order and the size of numbers do not change in a cursor, and are parameters; what a
-- parser changes is the position. `String::from_utf8_lossy` is a parameter.
pub mod Cursor
pub mod Parse
pub mod Ends
pub mod Function
pub mod Chunk
pub mod Written
pub mod RoundTrip
pub mod Nested
pub mod Encoded
mod Tests
use vmrp_rust.Prelude.{
  ℕ, zero, suc, ◌+◌, ◌-◌, ◌*◌, ◌^◌, Option, none, some, List, [], ◌∷◌, ◌||◌, not, Bool, true, false,
  length, take, drop, ltb, leb, ◌==◌, ◌!=◌, if◌then◌else◌,
}
use vmrp_rust.Cpu.Memory.{from_le_bytes32}
use vmrp_rust.Abi.{Bytes, nth, slice, eq_bytes}
use vmrp_rust.Abi.Outcome
use vmrp_rust.Abi.Outcome.{Outcome, or_panic}

-- A string as its bytes.
abbrev pub String : Type 0
String = List ℕ

-- "\x1BMRP"
abbrev pub mrp_signature : Bytes
mrp_signature = 0x1b ∷ 77 ∷ 82 ∷ 80 ∷ []

mutual
  pub data MrFunction : Type 0 where
    function :
        (source : Option String) (line_defined nups num_params is_vararg max_stack_size : ℕ)
        (line_count local_count upvalue_count constant_count code_count : ℕ)
        (children : MrFunctions)
        → MrFunction

  -- A vector of functions.
  pub data MrFunctions : Type 0 where
    nil : MrFunctions
    cons : MrFunction → MrFunctions → MrFunctions

pub data MrChunkError : Type 0 where
  truncated : MrChunkError
  invalid_signature : MrChunkError
  unsupported_version : (found : ℕ) → MrChunkError
  invalid_format : MrChunkError

pub record MrChunkHeader : Type 0 where
  pub version : ℕ
  pub little_endian : Bool
  pub number_size : ℕ

pub record MrChunk : Type 0 where
  pub header : MrChunkHeader
  pub main : MrFunction

abbrev pub Parser : Type 0 → Type 0
Parser A = ℕ → Outcome MrChunkError (A × ℕ)

abbrev pub and_then :
    {A B : Type 0} → Outcome MrChunkError (A × ℕ) → (A → Parser B) → Outcome MrChunkError (B × ℕ)
and_then (Outcome.ok (a, pos)) f = f a pos
and_then (Outcome.err e) f = Outcome.err e
and_then Outcome.panicked f = Outcome.panicked
and_then Outcome.out_of_fuel f = Outcome.out_of_fuel

infixl 5 ◌>>=◌ ◌>>◌
abbrev pub ◌>>=◌ : {A B : Type 0} → Parser A → (A → Parser B) → Parser B
◌>>=◌ p f pos = and_then (p pos) f

abbrev pub ◌>>◌ : {B : Type 0} → Parser (Unit {0}) → Parser B → Parser B
p >> q = p >>= λ _. q

abbrev pub pure : {A : Type 0} → A → Parser A
pure a pos = Outcome.ok (a, pos)

-- `if guard { return Err(InvalidFormat); }`
abbrev pub reject_if : Bool → Parser (Unit {0})
reject_if true pos = Outcome.err invalid_format
reject_if false pos = Outcome.ok (tt, pos)

-- An i32 is its bit pattern.
abbrev pub is_negative : ℕ → Bool
is_negative v = leb (2 ^ 31) v

-- `for _ in 0..count { body }`
abbrev pub times : ℕ → Parser (Unit {0}) → Parser (Unit {0})
times zero body = pure tt
times (suc count) body = body >> times count body

-- `for _ in 0..count { children.push(body) }`
abbrev pub collect : ℕ → Parser MrFunction → Parser MrFunctions
collect zero body = pure nil
collect (suc count) body = do
  child ← body
  children ← collect count body
  pure (cons child children)

abbrev pub last : Bytes → ℕ → ℕ
last [] d = d
last (b ∷ bs) d = last bs b

-- A string without the zero that may end it.
abbrev pub content : Bytes → Bytes
content raw = if last raw 1 == 0 then take (length raw - 1) raw else raw
