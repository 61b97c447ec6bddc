-- ===== src/Crawler/Events/Ports.antt =====
-- The further ports that `processEvent` tries.
use bt_dht_crawler.Prelude.{
  ℕ, ◌≡◌, ◌≢◌, refl, sym, ◌∙◌, true, false, List, [], ◌∷◌, Bytes, bytes_eq, bytes_eq_refl, length,
  leb, Bool-cases, inl, inr, ◌⊎◌,
}
use bt_dht_crawler.Prelude.Int.{ℤ, pos}
use bt_dht_crawler.Crawler.Queue.{
  DownloadQueue, WorkerPool, submit, loaded, delete, append_item, add,
}
use bt_dht_crawler.Crawler.Events.{peer_addr, is_port, submit_ports, submit_requester, common_ports}

-- A queue whose `Add` of this hash does nothing: it is in flight, or there is no room.
abbrev pub IsShut : Bytes → DownloadQueue → Type 0
IsShut h q = (loaded h q.in_flight ≡ true) ⊎ (leb q.max_size (length q.items) ≡ true)

delete-fresh : (h : Bytes) (l : List Bytes) → loaded h l ≡ false → delete h l ≡ l
unfolding loaded delete
delete-fresh h [] e = refl
delete-fresh h (x ∷ l) e = elim (Bool-cases (bytes_eq h x)) [
  | inl d ↦ let q : true ≡ false = rw d at e in cc
  | inr d ↦ let q : loaded h l ≡ false = rw d at e in rw (d, delete-fresh h l q) refl
]

delete-stored : (h : Bytes) (l : List Bytes) → loaded h l ≡ false → delete h (h ∷ l) ≡ l
unfolding delete
delete-stored h l e = rw (bytes_eq_refl h) (delete-fresh h l e)

loaded_first : (h : Bytes) (l : List Bytes) → loaded h (h ∷ l) ≡ true
unfolding loaded
loaded_first h l = rw (bytes_eq_refl h) refl

-- What is refused leaves the queue as it was.
pub add-shut :
    (h addr : Bytes) (now : ℕ) (q : DownloadQueue) → IsShut h q → add h addr now q ≡ (q, false)
unfolding add append_item
add-shut h addr now q s = elim (Bool-cases (loaded h q.in_flight)) [
  | inl e ↦ rw e refl
  | inr e ↦ elim s [
    | inl d ↦ absurd (true_false (sym d ∙ e))
    | inr full ↦ rw (e, full, delete-stored h q.in_flight e) refl
  ]
]
  where
    true_false : true ≢ false
    true_false e = cc

-- Behind an `Add`, whatever it returned, the queue is shut for its hash.
pub add-IsShut : (h addr : Bytes) (now : ℕ) (q : DownloadQueue) → IsShut h (add h addr now q).0
unfolding add append_item
add-IsShut h addr now q = elim (Bool-cases (loaded h q.in_flight)) [
  | inl e ↦ rw e (inl e)
  | inr e ↦ elim (Bool-cases (leb q.max_size (length q.items))) [
    | inl full ↦ rw (e, full) (inr full)
    | inr room ↦ rw (e, room) (inl (loaded_first h q.in_flight))
  ]
]

submit_ports-shut :
    (h ip : Bytes) (own : ℤ) (now : ℕ) (ports : List ℕ) (p : WorkerPool)
    → IsShut h p.queue
    → submit_ports h ip own now ports p ≡ p
unfolding submit_ports
submit_ports-shut h ip own now [] p s = refl
submit_ports-shut h ip own now (port ∷ ports) p s = elim (Bool-cases (is_port port own)) [
  | inl e ↦ rw e (submit_ports-shut h ip own now ports p s)
  | inr e ↦
      rw (e, add-shut h (peer_addr ip (pos port)) now p.queue s)
        (submit_ports-shut h ip own now ports p s)
]

-- When no step of another goroutine comes between the submissions of a `get_peers` event, only the one with
-- the requester's own port has an effect: as the queue keeps one entry for an info hash, all the further
-- ports are refused.
pub submit_requester-submit :
    (h ip : Bytes) (port : ℤ) (now : ℕ) (p : WorkerPool)
    → submit_requester h ip port now p ≡ submit h (peer_addr ip port) now p
unfolding submit_requester
submit_requester-submit h ip port now p =
    submit_ports-shut h ip port now common_ports (submit h (peer_addr ip port) now p)
      (add-IsShut h (peer_addr ip port) now p.queue)
