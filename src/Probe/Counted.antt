-- ===== src/Probe/Counted.antt =====
-- internal/cluster/probe.go: the counts and names of `probeNodes`, each by itself.
use kubetin.Common.{
  ℕ, ◌+◌, ◌≡◌, refl, sym, ap, ◌∙◌, String, Bool, true, false, not, ◌&&◌, ◌||◌, List, [], ◌∷◌, ◌++◌,
  map, append-nil, append_assoc, map-append, length, take, filter, filter-append, count_if,
  count_if-append, total, total-append, append_below, append_below-take, ltb, ◌==◌, if◌then◌else◌,
  arith, if-case,
}
use kubetin.Common.Int.{pos}
use kubetin.State.Defs.{unknown, healthy, degraded}
use kubetin.Probe.Nodes.{
  ConditionType, ready, memory_pressure, disk_pressure, pid_pressure, other, Condition, Node,
  NodeProbeResult, or_none, Scan, note_kind, scan_conditions, scan_start, after_scan, note_nodes,
  conclude, summarise_nodes,
}

abbrev is_ready_kind : ConditionType → Bool
is_ready_kind ready = true
is_ready_kind _ = false

abbrev is_memory_kind : ConditionType → Bool
is_memory_kind memory_pressure = true
is_memory_kind _ = false

abbrev is_disk_kind : ConditionType → Bool
is_disk_kind disk_pressure = true
is_disk_kind _ = false

abbrev is_pid_kind : ConditionType → Bool
is_pid_kind pid_pressure = true
is_pid_kind _ = false

abbrev holds : (ConditionType → Bool) → Condition → Bool
holds p c = c.is_true && p c.kind

abbrev any : (Condition → Bool) → List Condition → Bool
any p [] = false
any p (c ∷ cs) = p c || any p cs

abbrev pub is_ready : Node → Bool
is_ready n = any (holds is_ready_kind) n.conditions

abbrev is_pressure_kind : ConditionType → Bool
is_pressure_kind k = is_memory_kind k || is_disk_kind k || is_pid_kind k

abbrev pub is_pressured : Node → Bool
is_pressured n = any (holds is_pressure_kind) n.conditions

abbrev pub of_kind : (ConditionType → Bool) → List Node → ℕ
of_kind p ns = total (λ n. count_if (holds p) n.conditions) ns

abbrev pub first_names : (Node → Bool) → List Node → List String
first_names p ns = take 3 (map (λ n. n.name) (filter p ns))

-- Every field of the counts, from the list of nodes alone.
abbrev pub counted : List Node → NodeProbeResult
counted ns = record {
  reach = unknown;
  count = pos 0;
  ready_count = count_if is_ready ns;
  alloc_cpu_milli = total (λ n. or_none n.cpu) ns;
  alloc_mem_bytes = total (λ n. or_none n.memory) ns;
  not_ready_names = first_names (λ n. not (is_ready n)) ns;
  mem_pressure = of_kind is_memory_kind ns;
  disk_pressure = of_kind is_disk_kind ns;
  pid_pressure = of_kind is_pid_kind ns;
  cordoned = count_if (λ n. n.unschedulable) ns;
  cordoned_ready = count_if (λ n. n.unschedulable && is_ready n) ns;
  pressure_names = first_names is_pressured ns;
}

-- What the scan of a node's conditions adds.
abbrev scanned : List Condition → Scan → Scan
scanned cs s = record {
  node_ready = s.node_ready || any (holds is_ready_kind) cs;
  pressured = s.pressured || any (holds is_pressure_kind) cs;
  mem_pressure = s.mem_pressure + count_if (holds is_memory_kind) cs;
  disk_pressure = s.disk_pressure + count_if (holds is_disk_kind) cs;
  pid_pressure = s.pid_pressure + count_if (holds is_pid_kind) cs;
}

scanned_cons :
    (k : ConditionType) (t : Bool) (cs : List Condition) (s : Scan)
    → scanned cs (if not t then s else note_kind k s)
      ≡ scanned (record { kind = k; is_true = t } ∷ cs) s
scanned_cons k false cs s = ground arith
scanned_cons ready true cs s = ground arith
scanned_cons memory_pressure true cs s = ground arith
scanned_cons disk_pressure true cs s = ground arith
scanned_cons pid_pressure true cs s = ground arith
scanned_cons (other t) true cs s = ground arith

scan_conditions-scanned : (cs : List Condition) (s : Scan) → scan_conditions cs s ≡ scanned cs s
unfolding scan_conditions
scan_conditions-scanned [] s = ground arith
scan_conditions-scanned (c ∷ cs) s =
    scan_conditions-scanned cs (if not c.is_true then s else note_kind c.kind s)
    ∙ scanned_cons c.kind c.is_true cs s

first_names_next :
    (p : Node → Bool) (n : Node) (seen : List Node)
    → (if p n then append_below 3 n.name (first_names p seen) else first_names p seen)
      ≡ first_names p (seen ++ n ∷ [])
first_names_next p n seen =
    if-case (λ r. r ≡ first_names p (seen ++ n ∷ [])) (p n)
      (λ h. append_below-take 3 n.name (names (filter p seen)) ∙ ap (take 3) (one_more h))
      (λ h. ap (λ l. take 3 (names l)) (no_more h))
  where
    names : List Node → List String
    names l = map (λ m. m.name) l

    one_more :
        p n ≡ true
        → map (λ m. m.name) (filter p seen) ++ n.name ∷ []
          ≡ map (λ m. m.name) (filter p (seen ++ n ∷ []))
    one_more h =
        rw
          (
            filter-append p seen (n ∷ []),
            h,
            map-append (λ (m : Node). m.name) (filter p seen) (n ∷ []),
          )
          refl

    no_more : p n ≡ false → filter p seen ≡ filter p (seen ++ n ∷ [])
    no_more h = rw (filter-append p seen (n ∷ []), h) (sym (append-nil (filter p seen)))

after_scan-counted :
    (n : Node) (seen : List Node)
    → after_scan n (scanned n.conditions (scan_start (counted seen))) (counted seen)
      ≡ counted (seen ++ n ∷ [])
unfolding after_scan
after_scan-counted n seen = ground (
  arith,
  count_if-append is_ready seen (n ∷ []),
  total-append (λ m. or_none m.cpu) seen (n ∷ []),
  total-append (λ m. or_none m.memory) seen (n ∷ []),
  total-append (λ m. count_if (holds is_memory_kind) m.conditions) seen (n ∷ []),
  total-append (λ m. count_if (holds is_disk_kind) m.conditions) seen (n ∷ []),
  total-append (λ m. count_if (holds is_pid_kind) m.conditions) seen (n ∷ []),
  count_if-append (λ m. m.unschedulable) seen (n ∷ []),
  count_if-append (λ m. m.unschedulable && is_ready m) seen (n ∷ []),
  first_names_next (λ m. not (is_ready m)) n seen,
  first_names_next is_pressured n seen,
)

note_nodes-counted : (ns seen : List Node) → note_nodes ns (counted seen) ≡ counted (seen ++ ns)
unfolding note_nodes
note_nodes-counted [] seen = ap counted (sym (append-nil seen))
note_nodes-counted (n ∷ ns) seen =
    ap (λ s. note_nodes ns (after_scan n s (counted seen)))
      (scan_conditions-scanned n.conditions (scan_start (counted seen)))
    ∙ ap (note_nodes ns) (after_scan-counted n seen)
    ∙ note_nodes-counted ns (seen ++ n ∷ [])
    ∙ ap counted (append_assoc seen (n ∷ []) ns)

-- The summary of the nodes counts each field from the whole list: the nodes with a true Ready
-- condition, the quantities, the pressure conditions, the cordoned nodes and those of them that are
-- ready, and the first three names of the nodes that are not ready and of those under pressure. The
-- cluster is degraded if there is no node or not every node is ready, and else healthy.
pub summarise_nodes-counted :
    (ns : List Node)
    → summarise_nodes ns ≡ record (counted ns) {
      reach =
          if length ns == 0 || ltb (count_if is_ready ns) (length ns) then degraded else healthy;
      count = pos (length ns);
    }
unfolding summarise_nodes conclude
summarise_nodes-counted ns = ap (conclude (length ns)) (note_nodes-counted ns [])
