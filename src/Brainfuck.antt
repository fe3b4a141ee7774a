-- ===== src/Brainfuck.antt =====
-- c-study/brainfuck/brainfuck1.c: a machine for Brainfuck. A `char` is given by its bits, 0 to 255. An
-- access outside an array is a fault, `none`; so is a stack pointer below the stack.
pub mod Rounds
pub mod Loops
pub mod Skips
pub mod Commands
pub mod Setup
mod Tests
use chunxiao_code.Prelude.{
  ℕ, zero, suc, ◌+◌, ◌-◌, ◌%◌, List, [], ◌∷◌, ◌++◌, Option, none, some, Bool, true, false, ◌||◌,
  ◌==◌, ltb, length, get_elem?, set, replicate, if◌then◌else◌,
}
use chunxiao_code.Prelude.Int.{ℤ, pos, negsuc}
use chunxiao_code.Prelude.Fault.{◌>>=◌}

-- `CODE_SEGMENT_SIZE`, `STACK_SEGMENT_SIZE`, `DATA_SEGMENT_SIZE`
abbrev pub code_segment_size : ℕ
code_segment_size = 30000

abbrev pub stack_segment_size : ℕ
stack_segment_size = 1000

abbrev pub data_segment_size : ℕ
data_segment_size = 30000

-- `ds` and `bp` of `vm`, with what `getchar` will give and what `putchar` was given.
pub record Tape : Type 0 where
  pub ds : List ℕ
  pub bp : ℕ
  pub input : List ℕ
  pub output : List ℕ

-- `vm`, without the table `fn` (`op`, `exec`).
pub record Vm : Type 0 where
  pub cs : List ℕ
  pub ip : ℤ
  pub ss : List ℕ
  pub sp : ℕ
  pub tape : Tape

-- `vm.ds[vm.bp]`
abbrev pub here : Tape → Option ℕ
here t = get_elem? (t.ds) (t.bp)

unfoldable pub vm_forward : Tape → Option Tape
vm_forward t = some (record t { bp = (t.bp + 1) % data_segment_size })

unfoldable pub vm_backward : Tape → Option Tape
vm_backward t = some (record t { bp = (t.bp + data_segment_size - 1) % data_segment_size })

-- `vm.ds[vm.bp] = v`
abbrev pub put : Tape → ℕ → Tape
put t v = record t { ds = set (t.ds) (t.bp) v }

unfoldable pub vm_increment : Tape → Option Tape
vm_increment t = do v ← here t; some (put t ((v + 1) % 256))

unfoldable pub vm_decrement : Tape → Option Tape
vm_decrement t = do v ← here t; some (put t ((v + 255) % 256))

-- At the end of the input `getchar` gives -1.
abbrev pub getchar : List ℕ → ℕ × List ℕ
getchar [] = (255, [])
getchar (c ∷ input) = (c, input)

unfoldable pub vm_input : Tape → Option Tape
vm_input t = do
  v ← here t
  some (record (put t ((getchar (t.input)).0)) { input = (getchar (t.input)).1 })

unfoldable pub vm_output : Tape → Option Tape
vm_output t = do v ← here t; some (record t { output = t.output ++ (v ∷ []) })

-- The table `fn` without the brackets; another entry is NULL.
unfoldable pub op : ℕ → Tape → Option Tape
unfolding vm_forward vm_backward vm_increment vm_decrement vm_input vm_output
op c t =
    if c == b'>'
    then vm_forward t
    else if c == b'<'
    then vm_backward t
    else if c == b'+'
    then vm_increment t
    else if c == b'-'
    then vm_decrement t
    else if c == b'.'
    then vm_output t
    else if c == b','
    then vm_input t
    else none

-- `vm.ip++`
abbrev pub inc : ℤ → ℤ
inc (pos n) = pos (n + 1)
inc (negsuc zero) = pos 0
inc (negsuc (suc n)) = negsuc n

-- `vm.ip - 1` as a `char`, and a `char` as a `long`.
abbrev pub to_char : ℕ → ℕ
to_char ip = (ip + 255) % 256

abbrev pub to_long : ℕ → ℤ
to_long c = if ltb c 128 then pos c else negsuc (255 - c)

-- `for (vm.ip++; vm.cs[vm.ip] && c; vm.ip++)` on the code from `vm.ip` on: how far it goes.
unfoldable pub skip : List ℕ → ℕ → Option ℕ
skip [] c = none
skip (x ∷ code) c =
    let rest = skip code (if x == b'[' then c + 1 else if x == b']' then c - 1 else c) in
    if (x == 0) || (c == 0) then some 0 else (rest >>= λ n. some (n + 1))

abbrev pub from : ℕ → List ℕ → List ℕ
from zero code = code
from (suc n) [] = []
from (suc n) (x ∷ code) = from n code

-- `vm_while_entry` at `ip`
unfoldable pub vm_while_entry : ℕ → Vm → Option Vm
unfolding skip
vm_while_entry ip vm = do
  v ← here (vm.tape)
  if v == 0
      then (skip (from (ip + 1) (vm.cs)) 1 >>= λ n. some (record vm { ip = pos (ip + 1 + n) }))
      else if ltb (vm.sp) (length (vm.ss))
      then some (record vm { ss = set (vm.ss) (vm.sp) (to_char ip); sp = vm.sp + 1 })
      else none

-- `vm.sp--; vm.ip = vm.ss[vm.sp];`
unfoldable pub pop_ip : Vm → ℕ → Option Vm
pop_ip vm zero = none
pop_ip vm (suc sp) = do c ← get_elem? (vm.ss) sp; some (record vm { sp = sp; ip = to_long c })

unfoldable pub vm_while_exit : Vm → Option Vm
unfolding pop_ip
vm_while_exit vm = do v ← here (vm.tape); if v == 0 then some vm else pop_ip vm (vm.sp)

-- `vm.fn[vm.cs[vm.ip]]()` with the token and its place.
unfoldable pub exec : ℕ → ℕ → Vm → Option Vm
unfolding op vm_while_entry vm_while_exit
exec c ip vm =
    if c == b'['
    then vm_while_entry ip vm
    else if c == b']'
    then vm_while_exit vm
    else (op c (vm.tape) >>= λ t. some (record vm { tape = t }))

-- `vm.cs[vm.ip]`, with the place.
abbrev pub fetch : List ℕ → ℤ → Option (ℕ × ℕ)
fetch cs (pos n) = get_elem? cs n >>= λ c. some (c, n)
fetch cs (negsuc n) = none

-- The body of the loop of `run` on the token.
unfoldable pub round : ℕ × ℕ → Vm → Option Vm
unfolding exec
round (c, ip) vm = exec c ip vm >>= λ vm'. some (record vm' { ip = inc (vm'.ip) })

-- `run` with fuel for its rounds.
unfoldable pub run : ℕ → Vm → Option Vm
unfolding round
run zero vm = none
run (suc f) vm = do
  token ← fetch (vm.cs) (vm.ip)
  elim (token.0 == 0) [ true ↦ some vm | false ↦ round token vm >>= λ vm'. run f vm' ]

-- Does `strchr(TOKENS, c)` find the character? It finds the zero at the end as well.
abbrev pub is_token : ℕ → Bool
is_token c =
    (c == b'>')
    || (c == b'<')
    || (c == b'+')
    || (c == b'-')
    || (c == b'.')
    || (c == b',')
    || (c == b'[')
    || (c == b']')
    || (c == 0)

-- The tokens of a text.
unfoldable pub tokens : List ℕ → List ℕ
tokens [] = []
tokens (c ∷ text) = if is_token c then c ∷ tokens text else tokens text

-- `setup` on the text up to its end; no input is left for the program. A text with more tokens than
-- there are cells is a fault.
unfoldable pub setup : List ℕ → Option Vm
unfolding tokens
setup text =
    if ltb code_segment_size (length (tokens text))
    then none
    else some (record {
      cs = tokens text ++ replicate (code_segment_size - length (tokens text)) 0;
      ip = pos 0;
      ss = replicate stack_segment_size 0;
      sp = 0;
      tape = record { ds = replicate data_segment_size 0; bp = 0; input = []; output = [] };
    })
