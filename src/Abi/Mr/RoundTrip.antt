-- ===== src/Abi/Mr/RoundTrip.antt =====
-- Functions that are written as the chunk format has it (crates/vmrp-abi/src/mr.rs), read back.
use vmrp_rust.Prelude.{
  ℕ, suc, ◌+◌, ◌-◌, ◌*◌, ◌^◌, ◌<◌, ◌≡◌, ◌∙◌, Option, none, some, List, [], ◌∷◌, ◌++◌, Bool, true,
  false, All, length, take, length-append, ◌==◌, arith, refl, ap,
}
use vmrp_rust.Abi.{Bytes}
use vmrp_rust.Abi.Outcome.{Outcome}
use vmrp_rust.Abi.Written.{take-append}
use vmrp_rust.Abi.Mr.{
  String, MrFunction, function, MrFunctions, nil, cons, Parser, and_then, pure, times, collect,
  content, last,
}
use vmrp_rust.Abi.Mr.Cursor.{read_u32, read_content, read_string}
use vmrp_rust.Abi.Mr.Written.{
  to_bytes, Reads, bind-Reads, pure-Reads, take_raw-Reads, read_u32-Reads,
}

-- What a function is written from. A function that is read keeps the number of its lines, of its local
-- variables, of its upvalues, of its constants and of its instructions.
pub record WrittenLocal : Type 0 where
  pub name : Option String
  pub start_pc : ℕ
  pub end_pc : ℕ

pub data WrittenConstant : Type 0 where
  nil_constant : WrittenConstant
  number_constant : Bytes → WrittenConstant
  string_constant : Option String → WrittenConstant

mutual
  pub data WrittenFunction : Type 0 where
    written :
        (source : Option String) (line_defined nups num_params is_vararg max_stack_size : ℕ)
        (lines : List ℕ) (locals : List WrittenLocal) (upvalues : List (Option String))
        (constants : List WrittenConstant) (children : WrittenFunctions) (code : List ℕ)
        → WrittenFunction

  pub data WrittenFunctions : Type 0 where
    none_written : WrittenFunctions
    and_written : WrittenFunction → WrittenFunctions → WrittenFunctions

abbrev pub count_of : WrittenFunctions → ℕ
count_of none_written = 0
count_of (and_written f fs) = suc (count_of fs)

abbrev mutual
  -- What is read of it.
  pub kept : WrittenFunction → MrFunction
  kept
        (written source line_defined nups num_params is_vararg max_stack_size lines locals upvalues
          constants children code) =
      function source line_defined nups num_params is_vararg max_stack_size (length lines)
        (length locals) (length upvalues) (length constants) (length code) (kept_all children)

  pub kept_all : WrittenFunctions → MrFunctions
  kept_all none_written = nil
  kept_all (and_written f fs) = cons (kept f) (kept_all fs)

-- The texts of the items, one behind the other.
abbrev pub write_all : {A : Type 0} → (A → Bytes) → List A → Bytes
write_all write [] = []
write_all write (x ∷ xs) = write x ++ write_all write xs

module _ (order : Bool) where
  abbrev pub write_string : Option String → Bytes
  write_string none = to_bytes order 0
  write_string (some s) = to_bytes order (length s + 1) ++ (s ++ 0 ∷ [])

  abbrev pub write_local : WrittenLocal → Bytes
  write_local l = write_string l.name ++ (to_bytes order l.start_pc ++ to_bytes order l.end_pc)

  abbrev pub write_constant : WrittenConstant → Bytes
  write_constant nil_constant = 0 ∷ []
  write_constant (number_constant bytes) = 3 ∷ bytes
  write_constant (string_constant s) = 4 ∷ write_string s

  -- The lists of a function, and its code.
  abbrev pub write_lists :
      List ℕ
      → List WrittenLocal
      → List (Option String)
      → List WrittenConstant
      → List ℕ
      → ℕ
      → Bytes
      → Bytes
  write_lists lines locals upvalues constants code child_count children =
      to_bytes order (length lines)
      ++ (write_all (to_bytes order) lines
          ++ (to_bytes order (length locals)
              ++ (write_all write_local locals
                  ++ (to_bytes order (length upvalues)
                      ++ (write_all write_string upvalues
                          ++ (to_bytes order (length constants)
                              ++ (write_all write_constant constants
                                  ++ (to_bytes order child_count
                                      ++ (children
                                          ++ (to_bytes order (length code)
                                              ++ write_all (to_bytes order) code))))))))))

  abbrev mutual
    pub write_function : WrittenFunction → Bytes
    write_function
          (written source line_defined nups num_params is_vararg max_stack_size lines locals
            upvalues constants children code) =
        write_string source
        ++ (to_bytes order line_defined
            ++ ((nups ∷ [])
                ++ ((num_params ∷ [])
                    ++ ((is_vararg ∷ [])
                        ++ ((max_stack_size ∷ [])
                            ++ write_lists lines locals upvalues constants code (count_of children)
                                (write_functions children))))))

    pub write_functions : WrittenFunctions → Bytes
    write_functions none_written = []
    write_functions (and_written f fs) = write_function f ++ write_functions fs

  length-to_bytes : (v : ℕ) → length (to_bytes order v) ≡ 4
  length-to_bytes v = elim order as (λ t. length (to_bytes t v) ≡ 4) [ true ↦ refl | false ↦ refl ]

  pub length-words : (words : List ℕ) → length (write_all (to_bytes order) words) ≡ length words * 4
  length-words [] = refl
  length-words (w ∷ ws) = omega (
    arith,
    length-words ws,
    length-to_bytes w,
    length-append (to_bytes order w) (write_all (to_bytes order) ws),
  )

last-zero : (s : Bytes) (d : ℕ) → last (s ++ 0 ∷ []) d ≡ 0
last-zero [] d = refl
last-zero (c ∷ cs) d = last-zero cs c

-- A string without the zero that ends it.
content_lem : (s : Bytes) → content (s ++ 0 ∷ []) ≡ s
content_lem s =
    rw (last-zero s 1) (ap (λ n. take n (s ++ 0 ∷ [])) (shorter s) ∙ take-append s (0 ∷ []))
  where
    shorter : (s : Bytes) → length (s ++ 0 ∷ []) - 1 ≡ length s
    shorter s = omega (arith, length-append s (0 ∷ []))

abbrev pub AllFunctions : (WrittenFunction → Type 0) → WrittenFunctions → Type 0
AllFunctions P none_written = Unit
AllFunctions P (and_written f fs) = P f × AllFunctions P fs

-- A string that fits, and that the decoding of UTF-8 leaves as it is.
abbrev pub IsText : (Bytes → String) → Option String → Type 0
IsText from_utf8_lossy none = Unit
IsText from_utf8_lossy (some s) = (length s + 1 < 2 ^ 32) × (from_utf8_lossy s ≡ s)

-- A string that fits, for a name that is skipped.
abbrev pub IsName : Option String → Type 0
IsName none = Unit
IsName (some s) = length s + 1 < 2 ^ 32

module _ (from_utf8_lossy : Bytes → String) (bytes : Bytes) (order : Bool) where
  -- The string as it is decoded.
  abbrev pub decoded : Option String → Option String
  decoded none = none
  decoded (some s) = some (from_utf8_lossy s)

  read_content-Reads :
      (s : String)
      → Reads bytes
          (read_content bytes order from_utf8_lossy (length s + 1))
          (s ++ 0 ∷ [])
          (some (from_utf8_lossy s))
  read_content-Reads s pos rest at =
      rw (nonzero, sized)
        (ap (λ x. and_then x (λ raw. pure (some (from_utf8_lossy (content raw)))))
            (take_raw-Reads bytes (s ++ 0 ∷ []) pos rest at)
          ∙ ap (λ v. Outcome.ok (some v, pos + length (s ++ 0 ∷ [])))
              (ap from_utf8_lossy (content_lem s)))
    where
      nonzero : (length s + 1 == 0) ≡ false
      nonzero = ground arith

      sized : length s + 1 ≡ length (s ++ 0 ∷ [])
      sized = omega (arith, length-append s (0 ∷ []))

  no_content-Reads : Reads bytes (read_content bytes order from_utf8_lossy 0) [] none
  no_content-Reads = pure-Reads bytes none

  append_nil : (xs : Bytes) → xs ++ [] ≡ xs
  append_nil [] = refl
  append_nil (x ∷ xs) = ap (λ l. x ∷ l) (append_nil xs)

  pub read_name-Reads :
      (s : Option String)
      → IsName s
      → Reads bytes (read_string bytes order from_utf8_lossy) (write_string order s) (decoded s)
  unfolding read_string
  read_name-Reads none w =
      coe 0 1
        (i.
          Reads bytes (read_string bytes order from_utf8_lossy) (append_nil (to_bytes order 0) i)
            none)
        (bind-Reads bytes (read_u32 bytes order) _ (to_bytes order 0) [] 0 none
          (read_u32-Reads bytes order 0 (omega arith)) no_content-Reads)
  read_name-Reads (some s) w =
      bind-Reads bytes (read_u32 bytes order) _ (to_bytes order (length s + 1)) (s ++ 0 ∷ [])
        (length s + 1) (some (from_utf8_lossy s)) (read_u32-Reads bytes order (length s + 1) w)
        (read_content-Reads s)

  pub read_string-Reads :
      (s : Option String)
      → IsText from_utf8_lossy s
      → Reads bytes (read_string bytes order from_utf8_lossy) (write_string order s) s
  read_string-Reads none w = read_name-Reads none tt
  read_string-Reads (some s) w =
      coe 0 1
        (i.
          Reads bytes (read_string bytes order from_utf8_lossy) (write_string order (some s))
            (some (w.1 i)))
        (read_name-Reads (some s) w.0)

  pub times-Reads :
      {A : Type 0} (Fits : A → Type 0) (body : Parser (Unit {0})) (write : A → Bytes)
      → ((x : A) → Fits x → Reads bytes body (write x) tt)
      → (xs : List A) → All Fits xs
      → Reads bytes (times (length xs) body) (write_all write xs) tt
  times-Reads Fits body write h [] w = pure-Reads bytes tt
  times-Reads Fits body write h (x ∷ xs) w =
      bind-Reads bytes body (λ _. times (length xs) body) (write x) (write_all write xs) tt tt
        (h x w.0) (times-Reads Fits body write h xs w.1)

  pub collect-Reads :
      (Fits : WrittenFunction → Type 0) (body : Parser MrFunction)
      → ((f : WrittenFunction) → Fits f → Reads bytes body (write_function order f) (kept f))
      → (fs : WrittenFunctions) → AllFunctions Fits fs
      → Reads bytes (collect (count_of fs) body) (write_functions order fs) (kept_all fs)
  collect-Reads Fits body h none_written w = pure-Reads bytes nil
  collect-Reads Fits body h (and_written f fs) w =
      bind-Reads bytes body _ (write_function order f) (write_functions order fs) (kept f)
        (cons (kept f) (kept_all fs)) (h f w.0)
        (λ pos rest at.
          ap (λ x. and_then x (λ children. pure (cons (kept f) children)))
            (collect-Reads Fits body h fs w.1 pos rest at))
