-- ===== src/Snapshot/State/Copies.antt =====
-- Shared objects come apart in a restore.
use edge_libos.Snapshot.Freeze.{pipe_read_kind, pipe_write_kind, resource_snapshot}
use edge_libos.Snapshot.State.{RestoreHost, rebuild_resource, rebuilt}
use edge_libos.Sys.File.Write.{write_pipe}
use edge_libos.Kernel.{Kernel}
use edge_libos.Fd.Objects.{Pipe, Resource}
use edge_libos.Map.{get, get-insert, insert}
use edge_libos.Base.{List, Option, arith, refl, some, ℕ, ◌++◌, ◌+◌, ◌≡◌}

-- What restoring both ends of pipe `p` into `j`, one after the other, comes to: pipes under two
-- numbers, both with the contents `x`, of which a write to the second changes only the second.
abbrev pub Apart :
    (h : RestoreHost) (port_of : ℕ → Option ℕ) (k j : Kernel) (p : ℕ) (x : Pipe) (bytes : List ℕ)
    → Type 0
Apart h port_of k j p x bytes =
    let o = j.next_object in
    (m : Kernel) × (n : Kernel) × (rebuild_resource h j pipe_read_kind
        (resource_snapshot port_of k (Resource.pipe_read p)).body
      ≡ rebuilt m (Resource.pipe_read o))
    × (rebuild_resource h m pipe_write_kind
          (resource_snapshot port_of k (Resource.pipe_write p)).body
        ≡ rebuilt n (Resource.pipe_write (o + 1)))
    × (get o (write_pipe n (o + 1) bytes).0.pipes ≡ some x)
    × (get (o + 1) (write_pipe n (o + 1) bytes).0.pipes ≡ some (record x { buf = x.buf ++ bytes }))

-- The two ends of a pipe that was frozen, restored one after the other, are ends of two pipes with
-- the same contents: bytes that are written to the one never reach the other.
pub rebuild_resource-Apart :
    (h : RestoreHost) (port_of : ℕ → Option ℕ) (k j : Kernel) (p : ℕ) (x : Pipe) (bytes : List ℕ)
    → get p k.pipes ≡ some x
    → Apart h port_of k j p x bytes
unfolding rebuild_resource resource_snapshot write_pipe
rebuild_resource-Apart h port_of k j p x bytes there =
    let o = j.next_object in
    let m : Kernel = record j { pipes = insert o x j.pipes; next_object = o + 1 } in
    let n : Kernel = record m { pipes = insert (o + 1) x m.pipes; next_object = o + 1 + 1 } in
    let two : get (o + 1) n.pipes ≡ some x = ground (arith, get-insert (o + 1) (o + 1) x m.pipes) in
    let one : get o n.pipes ≡ some x =
      ground (arith, get-insert (o + 1) o x m.pipes, get-insert o o x j.pipes) in
    (
      m,
      n,
      rw there refl,
      rw there refl,
      rw (two, write_pipe)
          (ground (arith, get-insert (o + 1) o (record x { buf = x.buf ++ bytes }) n.pipes, one)),
      rw (two, write_pipe)
          (ground (arith, get-insert (o + 1) (o + 1) (record x { buf = x.buf ++ bytes }) n.pipes)),
    )
