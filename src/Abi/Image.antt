-- ===== src/Abi/Image.antt =====
-- crates/vmrp-abi/src/image.rs and blob.rs: a blob of code, and the memory that it is loaded into.
pub mod Contents
use vmrp_rust.Prelude.{ℕ, suc, ◌+◌, ◌%◌, ◌^◌, List, [], ◌∷◌}
use vmrp_rust.Prelude.Result
use vmrp_rust.Prelude.Result.{Result}
use vmrp_rust.Prelude.State.{Stateful, pure, ◌>>=◌, ◌>>◌}
use vmrp_rust.Word.{add32}
use vmrp_rust.Cpu.Cpsr.{ExecutionMode}
use vmrp_rust.Cpu.Memory.{TestMemory, MemoryAccessError, with_ram, write8}
use vmrp_rust.Abi.{Bytes}
use vmrp_rust.Abi.Layout.{AddressSpaceLayout, default_layout}

pub record GuestImage : Type 0 where
  pub memory : TestMemory

unfoldable pub for_layout : AddressSpaceLayout → GuestImage
unfolding with_ram
for_layout layout = record { memory = with_ram layout.code.base layout.code.size }

-- The loop of `write_blob`, from an offset on.
unfoldable pub write_from : ℕ → ℕ → Bytes → Stateful TestMemory MemoryAccessError (Unit {0})
unfolding write8
write_from start offset [] = pure tt
write_from start offset (byte ∷ bytes) = do
  λ m. write8 m (add32 start (offset % 2 ^ 32)) byte
  write_from start (suc offset) bytes

abbrev pub image_of :
    Result MemoryAccessError (Unit {0}) × TestMemory
    → Result MemoryAccessError (Unit {0}) × GuestImage
image_of (r, m) = (r, record { memory = m })

unfoldable pub write_blob :
    GuestImage → ℕ → Bytes → Result MemoryAccessError (Unit {0}) × GuestImage
unfolding write_from
write_blob image start bytes = image_of (write_from start 0 bytes image.memory)

pub data AbiLoadError : Type 0 where
  memory : MemoryAccessError → AbiLoadError

pub record CodeBlob : Type 0 where
  pub load_address : ℕ
  pub entry : ℕ
  pub bytes : Bytes
  pub mode : ExecutionMode

abbrev pub raw_arm : ℕ → Bytes → CodeBlob
raw_arm load_address bytes = record {
  load_address = load_address;
  entry = load_address;
  bytes = bytes;
  mode = ExecutionMode.arm;
}

abbrev pub with_entry : ℕ → ℕ → Bytes → ExecutionMode → CodeBlob
with_entry load_address entry bytes mode = record {
  load_address = load_address;
  entry = entry;
  bytes = bytes;
  mode = mode;
}

pub record LoadedImage : Type 0 where
  pub memory : TestMemory
  pub load_address : ℕ
  pub entry : ℕ
  pub mode : ExecutionMode

-- The rest of `load`, once the bytes are written.
abbrev pub loaded :
    CodeBlob → Result MemoryAccessError (Unit {0}) × GuestImage → Result AbiLoadError LoadedImage
loaded blob (Result.err e, image) = Result.err (AbiLoadError.memory e)
loaded blob (Result.ok _, image) = Result.ok (record {
  memory = image.memory;
  load_address = blob.load_address;
  entry = blob.entry;
  mode = blob.mode;
})

unfoldable pub load : CodeBlob → Result AbiLoadError LoadedImage
unfolding for_layout write_blob
load blob = loaded blob (write_blob (for_layout default_layout) blob.load_address blob.bytes)
