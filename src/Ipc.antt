-- ===== src/Ipc.antt =====
-- Kernel/IPC.c around the rings of `Pipe`: the table of pipes by name, the structures of the pipes by
-- their address, and what a process keeps for its pipes. The lists of pids and of marks are 32-bit
-- integers in a memory of bytes, lowest byte first, because the lists of one process overlap.
pub mod Calls
pub mod Wake
pub mod Names
pub mod Waits
use gat_os_v.Base.{
  ℕ, zero, suc, ◌+◌, ◌-◌, ◌*◌, ◌/◌, ◌%◌, Bool, true, false, ◌&&◌, ◌||◌, not, Option, none, some,
  List, ◌==◌, ltb, leb, if◌then◌else◌, update, ℤ, pos, negsuc, ◌+ℤ◌, ltb_ℤ,
}
use gat_os_v.Process.{Pid, same_pid}
use gat_os_v.Mutex.{has_name}
use gat_os_v.Copy.{Bytes}
use gat_os_v.Buddy.{null}
use gat_os_v.Pipe.{Pipe, pipe_length}

abbrev pub max_pipes : ℕ
max_pipes = 50

abbrev pub max_process_pipes : ℕ
max_process_pipes = 3

-- `sizeof(Pipe)` and `sizeof(int)`
abbrev pub size_of_pipe : ℕ
size_of_pipe = 64

abbrev pub size_of_int : ℕ
size_of_int = 4

-- `Pipe`, with the fields of its ring in `ring`
pub record Link : Type 0 where
  pub name : Option (List ℕ)
  pub creator : ℕ
  pub pipe_pids : ℕ
  pub blocked : ℕ
  pub cardinal_blocked : ℕ
  pub connected : ℕ
  pub mutex : ℕ
  pub ring : Pipe

-- The fields of `Process` that belong to pipes.
pub record PipeOwner : Type 0 where
  pub pid : ℕ
  pub pipes_opened : ℕ
  pub occupied_position : ℕ
  pub pipe_pids : ℕ
  pub blocked : ℕ
  pub pipes_struct : ℕ

-- `pipeNames`, `pipes`, `lastPipeName` and `ipcAdminMutex`; the structures and the processes by
-- address. `lastPipeName` may be -1, so what lies before the two arrays is there too.
pub record Ipc : Type 0 where
  pub pipe_names : ℕ → Option (List ℕ)
  pub pipes : ℕ → ℕ
  pub name_before : Option (List ℕ)
  pub pipe_before : ℕ
  pub last_pipe_name : ℤ
  pub ipc_admin_mutex : ℕ
  pub link : ℕ → Link
  pub owner : ℕ → PipeOwner
  pub memory : Bytes

-- An `int` in memory.
abbrev pub load_int : ℕ → Bytes → ℕ
load_int a m = m a + 256 * m (a + 1) + 65536 * m (a + 2) + 16777216 * m (a + 3)

abbrev pub store_int : ℕ → ℕ → Bytes → Bytes
store_int a w m =
    update
      (update (update (update m a (w % 256)) (a + 1) (w / 256 % 256)) (a + 2) (w / 65536 % 256))
      (a + 3) (w / 16777216 % 256)

-- -1 has all bits set.
abbrev pub pid_word : Pid → ℕ
pid_word none = 0xFFFFFFFF
pid_word (some p) = p % 0x100000000

abbrev pub word_pid : ℕ → Pid
word_pid w = if w == 0xFFFFFFFF then none else some w

abbrev pub load_pid : ℕ → ℕ → Bytes → Pid
load_pid list j m = word_pid (load_int (list + size_of_int * j) m)

abbrev pub store_pid : ℕ → ℕ → Pid → Bytes → Bytes
store_pid list j p m = store_int (list + size_of_int * j) (pid_word p) m

-- The string at a `char *`; at NULL the bytes that lie there.
abbrev pub string : List ℕ → Option (List ℕ) → List ℕ
string at_null none = at_null
string at_null (some own) = own

-- `getPipeNameIndex` from index `i` on; `none` is PIPE_NOT_FOUND.
unfoldable pub name_index_from : List ℕ → List ℕ → ℕ → ℕ → Ipc → Option ℕ
name_index_from at_null name zero i ipc = none
name_index_from at_null name (suc n) i ipc =
    let rest = name_index_from at_null name n (i + 1) ipc in
    if has_name at_null (ipc.pipe_names i) name then some i else rest

abbrev pub get_pipe_name_index : List ℕ → List ℕ → Ipc → Option ℕ
get_pipe_name_index at_null name ipc = name_index_from at_null name max_pipes 0 ipc

abbrev pub is_null {ℓ} : {A : Type ℓ} → Option A → Bool
is_null none = true
is_null (some a) = false

-- `getMiddleSpace` from index `i` on; `none` is NO_SPACE_LEFT.
unfoldable pub middle_space_from : ℕ → ℕ → Ipc → Option ℕ
middle_space_from zero i ipc = none
middle_space_from (suc n) i ipc =
    let rest = middle_space_from n (i + 1) ipc in
    if is_null (ipc.pipe_names i) then some i else rest

abbrev pub get_middle_space : Ipc → Option ℕ
get_middle_space ipc = middle_space_from max_pipes 0 ipc

-- `occupiedPosition[i]`
abbrev pub occupied_at : PipeOwner → ℕ → Bytes → ℕ
occupied_at own i m = load_int (own.occupied_position + size_of_int * i) m

-- The loop of `getIndexForPipeStructure`.
unfoldable pub free_index_from : ℕ → ℕ → PipeOwner → Bytes → Option ℕ
free_index_from zero i own m = none
free_index_from (suc n) i own m =
    let rest = free_index_from n (i + 1) own m in if occupied_at own i m == 0 then some i else rest

-- The index that the loop has found, and `pipesOpened`.
abbrev pub with_found : Option ℕ → PipeOwner → Option ℕ × PipeOwner
with_found none own = (none, own)
with_found (some i) own = (some i, record own { pipes_opened = i + 1 })

-- `getIndexForPipeStructure`; `none` is NO_SPACE_LEFT.
unfoldable pub get_index_for_pipe_structure : PipeOwner → Bytes → Option ℕ × PipeOwner
get_index_for_pipe_structure own m =
    let current = own.pipes_opened in
    if ltb max_process_pipes current || occupied_at own current m == 1
    then with_found (free_index_from max_process_pipes 0 own m) own
    else (some current, record own { pipes_opened = current + 1 })

-- The structure that `createPipeStruct` fills; `mutex` and the bytes of the ring stay.
abbrev pub new_link : PipeOwner → List ℕ → ℕ → Link → Link
new_link own name index l = record l {
  name = some name;
  ring = record l.ring { end = 0; read_flag = 0; position = 0 };
  connected = 1;
  creator = own.pid;
  pipe_pids = own.pipe_pids + index * max_process_pipes;
  blocked = own.blocked + index * max_process_pipes;
  cardinal_blocked = 0;
}

-- `createPipeStruct` behind its `getIndexForPipeStructure`: the address of the structure.
unfoldable pub fill_struct : Option ℕ × PipeOwner → ℕ → List ℕ → Ipc → ℕ × Ipc
fill_struct (none, own) pro name ipc = (null, record ipc { owner = update ipc.owner pro own })
fill_struct (some index, own) pro name ipc =
    let p = own.pipes_struct + index * size_of_pipe in
    let l = new_link own name index (ipc.link p) in
    (
      p,
      record ipc {
        owner = update ipc.owner pro (record own { pipes_opened = 0 });
        link = update ipc.link p l;
        memory =
            store_int l.pipe_pids own.pid
              (store_int (own.occupied_position + size_of_int * index) 1 ipc.memory);
      },
    )

unfoldable pub create_pipe_struct : ℕ → List ℕ → Ipc → ℕ × Ipc
create_pipe_struct pro name ipc =
    fill_struct (get_index_for_pipe_structure (ipc.owner pro) ipc.memory) pro name ipc

-- `pipeNames[lastPipeName]`, and the writes of `createPipe` there
abbrev pub name_at : ℤ → Ipc → Option (List ℕ)
name_at (pos i) ipc = ipc.pipe_names i
name_at (negsuc _) ipc = ipc.name_before

abbrev pub enter : ℤ → List ℕ → ℕ → Ipc → Ipc
enter (pos i) name p ipc = record ipc {
  pipe_names = update ipc.pipe_names i (some name);
  pipes = update ipc.pipes i p;
}
enter (negsuc _) name p ipc = record ipc { name_before = some name; pipe_before = p }

-- The first test of `createPipe`: whether there is a place, and `lastPipeName`.
abbrev pub middle_place : Option ℕ → Ipc → Bool × Ipc
middle_place none ipc = (false, record ipc { last_pipe_name = negsuc 0 })
middle_place (some i) ipc = (true, record ipc { last_pipe_name = pos i })

unfoldable pub find_place : Ipc → Bool × Ipc
find_place ipc =
    if not (ltb_ℤ ipc.last_pipe_name (pos max_pipes))
      || not (is_null (name_at ipc.last_pipe_name ipc))
    then middle_place (get_middle_space ipc) ipc
    else (true, ipc)

-- The loop of `freeSpace`: the first structure of that name. The code sets no bound.
unfoldable pub struct_index : ℕ → List ℕ → List ℕ → ℕ → PipeOwner → Ipc → Option ℕ
struct_index zero at_null name i own ipc = none
struct_index (suc fuel) at_null name i own ipc =
    let rest = struct_index fuel at_null name (i + 1) own ipc in
    if has_name at_null (ipc.link (own.pipes_struct + i * size_of_pipe)).name name
    then some i
    else rest

abbrev pub clear_mark : Option ℕ → PipeOwner → Ipc → Option Ipc
clear_mark none own ipc = none
clear_mark (some i) own ipc =
    some (record ipc { memory = store_int (own.occupied_position + size_of_int * i) 0 ipc.memory })

-- `freeSpace`; `none` when `fuel` structures are not enough.
unfoldable pub free_space : ℕ → List ℕ → List ℕ → PipeOwner → Ipc → Option Ipc
free_space fuel at_null name own ipc = clear_mark (struct_index fuel at_null name 0 own ipc) own ipc

-- `closePipe` behind its `getPipeNameIndex`; `pro` is what `getProcessById` gives for the creator.
unfoldable pub close_at : Option ℕ → ℕ → List ℕ → Pid → ℕ → Ipc → Option Ipc
close_at none fuel at_null current pro ipc = some ipc
close_at (some i) fuel at_null current pro ipc =
    if same_pid current (ipc.owner pro).pid
    then free_space fuel at_null (string at_null (ipc.link (ipc.pipes i)).name) (ipc.owner pro)
        (record ipc { pipes = update ipc.pipes i null })
    else some ipc
