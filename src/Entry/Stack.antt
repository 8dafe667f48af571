-- ===== src/Entry/Stack.antt =====
-- kernel/src/main.rs: `_start`, which calls `main` on the stack of the kernel.
use maizono_os.Base.{ℕ, ◌+◌, ◌*◌, ◌%◌, ◌<◌, ◌≡◌, refl, Option, some, arith}
use maizono_os.Base.Checked.{◌>>=◌, add_usize, add_usize_fits, word_limit}

abbrev kernel_stack_size : ℕ
kernel_stack_size = 1024 * 1024

-- The static array of bytes lies where the linker puts it.
record KernelStack : Type 0 where
  addr : ℕ

abbrev len : KernelStack → ℕ
len stack = kernel_stack_size

abbrev as_ptr : KernelStack → ℕ
as_ptr stack = stack.addr

-- The registers at the call of the entry: the first argument and the stack.
record Registers : Type 0 where
  rdi : ℕ
  rsp : ℕ

switch_to_kernel_stack : KernelStack → ℕ → Registers → Option Registers
switch_to_kernel_stack stack boot_info registers = add_usize (as_ptr stack) (len stack) >>= λ top.
    some (record registers { rdi = boot_info; rsp = top })

abbrev start : KernelStack → ℕ → Registers → Option Registers
start stack boot_info registers = switch_to_kernel_stack stack boot_info registers

-- `main` is called with the boot information at the upper end of the stack, which is aligned as the
-- stack is.
start_lem :
    (stack : KernelStack) (boot_info : ℕ) (registers : Registers)
    → stack.addr % 16 ≡ 0
    → stack.addr + kernel_stack_size < word_limit
    → (out : Registers) × (start stack boot_info registers ≡ some out)
      × (out.rdi ≡ boot_info)
      × (out.rsp ≡ stack.addr + kernel_stack_size)
      × (out.rsp % 16 ≡ 0)
unfolding switch_to_kernel_stack
start_lem stack boot_info registers aligned fits = (
  record { rdi = boot_info; rsp = stack.addr + kernel_stack_size },
  rw (add_usize_fits stack.addr kernel_stack_size fits) refl,
  refl,
  refl,
  omega arith,
)
