-- ===== src/Abi/Mr/Nested.antt =====
-- A tree of functions that is written as the chunk format has it, read back by `parse_function`
-- (crates/vmrp-abi/src/mr.rs).
use vmrp_rust.Prelude.{
  ℕ, zero, suc, ◌+◌, ◌*◌, ◌^◌, ◌≤◌, ◌<◌, ◌≡◌, ◌∙◌, ◌||◌, Bool, Option, max, List, [], ◌∷◌, ◌++◌,
  true, false, length, All, arith, ap,
}
use vmrp_rust.Abi.{Bytes}
use vmrp_rust.Abi.Mr.{
  String, function, Parser, and_then, pure, times, reject_if, is_negative, ◌>>=◌, ◌>>◌,
}
use vmrp_rust.Abi.Mr.Cursor.{skip, read_u8, read_count, read_string}
use vmrp_rust.Abi.Mr.Parse.{skip_local, skip_upvalue, skip_constant, with_capacity, parse_function}
use vmrp_rust.Abi.Mr.Written.{
  to_bytes, Reads, bind-Reads, pure-Reads, skip-Reads, read_u8-Reads, read_u32-Reads,
  read_count-Reads,
}
use vmrp_rust.Abi.Mr.RoundTrip.{
  WrittenLocal, WrittenConstant, nil_constant, number_constant, string_constant, WrittenFunction,
  written, WrittenFunctions, none_written, and_written, kept, kept_all, write_all, write_string,
  write_local, write_constant, count_of, write_function, write_functions, length-words,
  AllFunctions, IsText, IsName, decoded, read_name-Reads, read_string-Reads, times-Reads,
  collect-Reads,
}

-- Numbers that an i32 holds as counts.
abbrev pub IsCount : ℕ → Type 0
IsCount n = n < 2 ^ 31

abbrev mutual
  -- The depth of the nesting.
  pub depth : WrittenFunction → ℕ
  depth (written _ _ _ _ _ _ _ _ _ _ children _) = suc (depths children)

  pub depths : WrittenFunctions → ℕ
  depths none_written = 0
  depths (and_written f fs) = max (depth f) (depths fs)

abbrev pub IsLocal : WrittenLocal → Type 0
IsLocal l = IsName l.name × IsCount l.start_pc × IsCount l.end_pc

-- A number of the size that the chunk has.
abbrev pub IsConstant : ℕ → WrittenConstant → Type 0
IsConstant number_size nil_constant = Unit
IsConstant number_size (number_constant bytes) = length bytes ≡ number_size
IsConstant number_size (string_constant s) = IsName s

abbrev mutual
  -- A function that can be written: a source that is text, counts, names that fit, numbers of the size
  -- of the chunk, and an allocator that grants the vectors of its nested functions.
  pub IsWritable : (ℕ → Bool) → (Bytes → String) → ℕ → WrittenFunction → Type 0
  IsWritable can_allocate from_utf8_lossy number_size
        (written source line_defined _ _ _ _ lines locals upvalues constants children code) =
      IsText from_utf8_lossy source
      × IsCount line_defined
      × IsCount (length lines)
      × (IsCount (length locals) × All IsLocal locals)
      × (IsCount (length upvalues) × All IsName upvalues)
      × (IsCount (length constants) × All (IsConstant number_size) constants)
      × IsCount (length code)
      × IsCount (count_of children)
      × (can_allocate (count_of children) ≡ true)
      × AreWritable can_allocate from_utf8_lossy number_size children

  pub AreWritable : (ℕ → Bool) → (Bytes → String) → ℕ → WrittenFunctions → Type 0
  AreWritable can_allocate from_utf8_lossy number_size none_written = Unit
  AreWritable can_allocate from_utf8_lossy number_size (and_written f fs) =
      IsWritable can_allocate from_utf8_lossy number_size f
      × AreWritable can_allocate from_utf8_lossy number_size fs

module _ (can_allocate : ℕ → Bool) (from_utf8_lossy : Bytes → String) (bytes : Bytes) (order : Bool)
    (number_size : ℕ) where
  -- What a parser needs of a nested function, by its fuel.
  abbrev Fits : ℕ → WrittenFunction → Type 0
  Fits fuel f = IsWritable can_allocate from_utf8_lossy number_size f × (depth f ≤ fuel)

  AreWritable-Fits :
      (fuel : ℕ) (fs : WrittenFunctions)
      → AreWritable can_allocate from_utf8_lossy number_size fs
      → depths fs ≤ fuel
      → AllFunctions (Fits fuel) fs
  AreWritable-Fits fuel none_written w h = tt
  AreWritable-Fits fuel (and_written f fs) w h =
      ((w.0, omega (arith, h)), AreWritable-Fits fuel fs w.1 (omega (arith, h)))

  skip_local-Reads :
      (l : WrittenLocal)
      → IsLocal l
      → Reads bytes (skip_local from_utf8_lossy bytes order number_size) (write_local order l) tt
  unfolding skip_local
  skip_local-Reads l w =
      bind-Reads bytes _ _ (write_string order l.name)
        (to_bytes order l.start_pc ++ to_bytes order l.end_pc)
        (decoded from_utf8_lossy bytes order l.name) tt
        (read_name-Reads from_utf8_lossy bytes order l.name w.0)
        (bind-Reads bytes _ _ (to_bytes order l.start_pc) (to_bytes order l.end_pc) l.start_pc tt
          (read_u32-Reads bytes order l.start_pc (omega (arith, w.1)))
          (λ pos rest at.
            ap (λ x. and_then x (λ e. reject_if (is_negative l.start_pc || is_negative e)))
              (read_u32-Reads bytes order l.end_pc (omega (arith, w.2)) pos rest at)
            ∙ ap (λ t. reject_if t (pos + length (to_bytes order l.end_pc))) positive))
    where
      positive : (is_negative l.start_pc || is_negative l.end_pc) ≡ false
      positive = ground (arith, w.1, w.2)

  skipped_string :
      (s : Option String)
      → IsName s
      → Reads bytes
          (read_string bytes order from_utf8_lossy >>= λ _. pure tt)
          (write_string order s)
          tt
  skipped_string s w pos rest at =
      ap (λ x. and_then x (λ _. pure tt))
        (read_name-Reads from_utf8_lossy bytes order s w pos rest at)

  skip_upvalue-Reads :
      (s : Option String)
      → IsName s
      → Reads bytes (skip_upvalue from_utf8_lossy bytes order number_size) (write_string order s) tt
  unfolding skip_upvalue
  skip_upvalue-Reads s w = skipped_string s w

  skip_constant-Reads :
      (c : WrittenConstant)
      → IsConstant number_size c
      → Reads bytes
          (skip_constant from_utf8_lossy bytes order number_size)
          (write_constant order c)
          tt
  unfolding skip_constant
  skip_constant-Reads nil_constant w =
      bind-Reads bytes _ _ (0 ∷ []) [] 0 tt (read_u8-Reads bytes 0) (pure-Reads bytes tt)
  skip_constant-Reads (number_constant n) w =
      bind-Reads bytes _ _ (3 ∷ []) n 3 tt (read_u8-Reads bytes 3)
        (skip-Reads bytes n number_size w)
  skip_constant-Reads (string_constant s) w =
      bind-Reads bytes _ _ (4 ∷ []) (write_string order s) 4 tt (read_u8-Reads bytes 4)
        (skipped_string s w)

  counted :
      {A : Type 0} (v : ℕ) (k : ℕ → Parser A) (text : Bytes) (a : A)
      → IsCount v
      → Reads bytes (k v) text a
      → Reads bytes (read_count bytes order >>= k) (to_bytes order v ++ text) a
  counted v k text a small h =
      bind-Reads bytes (read_count bytes order) k (to_bytes order v) text v a
        (read_count-Reads bytes order v small) h

  byte :
      {A : Type 0} (v : ℕ) (k : ℕ → Parser A) (text : Bytes) (a : A)
      → Reads bytes (k v) text a
      → Reads bytes (read_u8 bytes >>= k) ((v ∷ []) ++ text) a
  byte v k text a h = bind-Reads bytes (read_u8 bytes) k (v ∷ []) text v a (read_u8-Reads bytes v) h

  skipped :
      {A : Type 0} (words : List ℕ) (q : Parser A) (text : Bytes) (a : A)
      → Reads bytes q text a
      → Reads bytes
          (skip bytes (length words * 4) >> q)
          (write_all (to_bytes order) words ++ text)
          a
  skipped words q text a h =
      bind-Reads bytes (skip bytes (length words * 4)) (λ _. q) (write_all (to_bytes order) words)
        text tt a
        (skip-Reads bytes (write_all (to_bytes order) words) (length words * 4)
          (length-words order words))
        h

  granted :
      {A : Type 0} (n : ℕ) (q : Parser A) (text : Bytes) (a : A)
      → can_allocate n ≡ true
      → Reads bytes q text a
      → Reads bytes
          (with_capacity from_utf8_lossy bytes order number_size can_allocate n >> q)
          text
          a
  unfolding with_capacity
  granted n q text a p h pos rest at = rw (p) (h pos rest at)

  repeated :
      {A B : Type 0} (OneFits : B → Type 0) (xs : List B) (p : Parser (Unit {0}))
      (write : B → Bytes) (q : Parser A) (text : Bytes) (a : A)
      → ((x : B) → OneFits x → Reads bytes p (write x) tt)
      → All OneFits xs
      → Reads bytes q text a
      → Reads bytes (times (length xs) p >> q) (write_all write xs ++ text) a
  repeated OneFits xs p write q text a h w k =
      bind-Reads bytes (times (length xs) p) (λ _. q) (write_all write xs) text tt a
        (times-Reads from_utf8_lossy bytes order OneFits p write h xs w) k

  last_skip :
      {A : Type 0} (words : List ℕ) (a : A)
      → Reads bytes (skip bytes (length words * 4) >> pure a) (write_all (to_bytes order) words) a
  last_skip words a pos rest at =
      ap (λ x. and_then x (λ _. pure a))
        (skip-Reads bytes (write_all (to_bytes order) words) (length words * 4)
          (length-words order words) pos rest at)

  -- With fuel for its depth, a function that can be written is read back wherever it is written.
  pub parse_function-Reads :
      (fuel : ℕ) (f : WrittenFunction)
      → Fits fuel f
      → Reads bytes
          (parse_function from_utf8_lossy bytes order number_size can_allocate fuel)
          (write_function order f)
          (kept f)
  unfolding parse_function
  parse_function-Reads zero (written _ _ _ _ _ _ _ _ _ _ children _) w = absurd (omega (arith, w.1))
  parse_function-Reads (suc fuel)
        (written source line_defined nups num_params is_vararg max_stack_size lines locals upvalues
          constants children code)
        w =
      let c = w.0 in
      let whole =
        function source line_defined nups num_params is_vararg max_stack_size (length lines)
          (length locals) (length upvalues) (length constants) (length code) (kept_all children) in
      let t0 : Bytes = to_bytes order (length code) ++ write_all (to_bytes order) code in
      let t1 : Bytes = write_functions order children ++ t0 in
      let t2 : Bytes = to_bytes order (count_of children) ++ t1 in
      let t3 : Bytes = write_all (write_constant order) constants ++ t2 in
      let t4 : Bytes = to_bytes order (length constants) ++ t3 in
      let t5 : Bytes = write_all (write_string order) upvalues ++ t4 in
      let t6 : Bytes = to_bytes order (length upvalues) ++ t5 in
      let t7 : Bytes = write_all (write_local order) locals ++ t6 in
      let t8 : Bytes = to_bytes order (length locals) ++ t7 in
      let t9 : Bytes = write_all (to_bytes order) lines ++ t8 in
      let t10 : Bytes = to_bytes order (length lines) ++ t9 in
      let t11 : Bytes = (max_stack_size ∷ []) ++ t10 in
      let t12 : Bytes = (is_vararg ∷ []) ++ t11 in
      let t13 : Bytes = (num_params ∷ []) ++ t12 in
      let t14 : Bytes = (nups ∷ []) ++ t13 in
      bind-Reads bytes (read_string bytes order from_utf8_lossy) _ (write_string order source)
        (to_bytes order line_defined ++ t14) source whole
        (read_string-Reads from_utf8_lossy bytes order source c.0)
        (counted line_defined _ t14 whole c.1 (
          byte nups _ t13 whole (
            byte num_params _ t12 whole (
              byte is_vararg _ t11 whole (
                byte max_stack_size _ t10 whole (
                  counted (length lines) _ t9 whole c.2 (
                    skipped lines _ t8 whole (
                      counted (length locals) _ t7 whole c.3.0 (
                        repeated IsLocal locals _ (write_local order) _ t6 whole skip_local-Reads
                          c.3.1
                          (counted (length upvalues) _ t5 whole c.4.0 (
                            repeated IsName upvalues _ (write_string order) _ t4 whole
                              skip_upvalue-Reads c.4.1
                              (counted (length constants) _ t3 whole c.5.0 (
                                repeated (IsConstant number_size) constants _ (write_constant order)
                                  _ t2 whole skip_constant-Reads c.5.1
                                  (counted (count_of children) _ t1 whole c.7 (
                                    granted (count_of children) _ t1 whole c.8 (
                                      bind-Reads bytes _ _ (write_functions order children) t0
                                        (kept_all children) whole
                                        (collect-Reads from_utf8_lossy bytes order (Fits fuel) _
                                          (parse_function-Reads fuel) children
                                          (AreWritable-Fits fuel children c.9 (omega (arith, w.1))))
                                        (counted (length code) _ (write_all (to_bytes order) code)
                                          whole c.6 (last_skip code whole))))))))))))))))))
