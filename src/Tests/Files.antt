-- ===== src/Tests/Files.antt =====
-- Descriptors, pipes and counters at concrete inputs.
use edge_libos.Sys.File.Chunks.{IsShortRead, read_chunks_ends}
use edge_libos.Base.Result.{ok}
use edge_libos.Base.{
  [], arith, false, length, min, refl, replicate, some, suc, true, ◌+◌, ◌-◌, ◌^◌, ◌∷◌, ◌≡◌,
}
use edge_libos.Map.{get}
use edge_libos.Kernel.{Kernel}
use edge_libos.Sys.EventFd.Count.{eventfd_read-write_all, sum, write_all}
use edge_libos.Sys.EventFd.{eventfd_read}
use edge_libos.Sys.File.Pipes.{read_pipe-write_pipe}
use edge_libos.Sys.File.Write.{write_pipe}
use edge_libos.Sys.File.{HostFile, data_of, read_chunks, read_pipe}
use edge_libos.Sys.Dup.Shared.{Duplicated, internal_dup-Duplicated}
use edge_libos.Sys.Dup.{internal_dup}
use edge_libos.Fd.Objects.{EventFdInner, Pipe, Resource}
use edge_libos.Fd.Table.Lowest.{
  Adds, Closed, IsLowestFree, IsValidTable, close-Closed, insert_at_least-Adds,
}
use edge_libos.Fd.Table.{FdTable, get_cloexec, insert_at, insert_at_least, insert_fd}
use edge_libos.Tests.Memory.{a_kernel}
use edge_libos.Fd.Table

-- Standard input and both ends of pipe 1.
abbrev a_table : FdTable
a_table = record {
  table = (0, Resource.stdin 0) ∷ (3, Resource.pipe_read 1) ∷ (4, Resource.pipe_write 1) ∷ [];
  next_fd = 5;
  cloexec = 4 ∷ [];
}

a_table-IsValidTable : IsValidTable a_table
a_table-IsValidTable = record {
  below_next = λ k h. ground arith;
  cloexec_open = λ k h. ground arith;
}

insert_at_least-Adds_example :
    let (u, fd) = insert_at_least a_table 3 (Resource.file 2) in
    IsLowestFree a_table.table 3 fd × Adds a_table u fd (Resource.file 2)
insert_at_least-Adds_example =
    insert_at_least-Adds a_table 3 (Resource.file 2) a_table-IsValidTable (omega arith)

close-Closed_example : Closed a_table 4 (Table.close a_table 4)
close-Closed_example = close-Closed a_table 4 a_table-IsValidTable

internal_dup-Duplicated_example :
    Duplicated a_table 3 (some 4) true (internal_dup a_table 3 (some 4) true)
internal_dup-Duplicated_example =
    internal_dup-Duplicated a_table 3 (some 4) true a_table-IsValidTable (omega arith)

abbrev a_pipe : Pipe
a_pipe = record { buf = 7 ∷ 8 ∷ []; closed = false; nonblock = false }

abbrev empty_pipe : Pipe
empty_pipe = record { buf = []; closed = false; nonblock = false }

abbrev with_pipe : Kernel
with_pipe = record a_kernel { fds = a_table; pipes = (1, a_pipe) ∷ (2, empty_pipe) ∷ [] }

read_pipe-write_pipe_example :
    (n : Kernel) × (read_pipe (write_pipe with_pipe 1 (9 ∷ [])).0 1 2
      ≡ data_of n (7 ∷ 8 ∷ []) false)
    × (get 1 n.pipes ≡ some (record a_pipe { buf = 9 ∷ [] }))
read_pipe-write_pipe_example =
    read_pipe-write_pipe with_pipe 1 2 a_pipe (9 ∷ []) refl (omega arith) (omega arith)

abbrev a_counter : EventFdInner
a_counter = record { counter = 5; nonblock = true }

eventfd_read-write_all_example : eventfd_read (write_all a_counter (1 ∷ 2 ∷ [])) ≡ (
  record (write_all a_counter (1 ∷ 2 ∷ [])) { counter = 0 },
  ok (min (5 + sum (1 ∷ 2 ∷ [])) (2 ^ 64 - 1)),
)
eventfd_read-write_all_example =
    eventfd_read-write_all a_counter (1 ∷ 2 ∷ []) (omega arith) (omega arith)

-- A file of 10000 bytes, whose state is the position.
abbrev a_file : HostFile
a_file = record {
  seek_start = λ c p. (p, some p);
  seek_current = λ c d. (c, some c);
  read_chunk = λ c n. (c + min n (10000 - c), some (replicate (min n (10000 - c)) 7));
  write_bytes = λ c bs. (c + length bs, some (length bs));
  metadata_len = λ c. some 10000;
}

read_chunks_ends_example :
    (read_chunks a_file (suc 5000 + 3) 0 5000 [] ≡ read_chunks a_file (suc 5000) 0 5000 [])
    × IsShortRead 5000 (read_chunks a_file (suc 5000) 0 5000 [])
read_chunks_ends_example = read_chunks_ends a_file 3 0 5000 (omega arith)
