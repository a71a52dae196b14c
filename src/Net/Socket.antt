-- ===== src/Net/Socket.antt =====
-- core/core/net/socket: the sockets, over what they use of the network library.
pub mod Listener
pub mod Filter
pub mod Pool
pub mod Service
pub mod Polling
use cpp_grcp_testground.Prelude.{
  ℕ, ◌+◌, ◌-◌, ◌≤◌, ◌<◌, ◌≡◌, Bool, Option, none, some, List, [], ◌∷◌, ◌++◌, length,
}

-- What the sockets use of a `boost::asio::streambuf`: `write` is what a receive does, which puts the
-- bytes at the start of the space that was prepared. The laws are documented behaviour: `consume` of
-- all the input leaves none, `prepare` makes space and keeps the input, `commit` moves the bytes that
-- were written to the input, and a read of all the input gives it.
pub record StreamBuffer {ℓ} (B : Type ℓ) : Type ℓ where
  pub input : B → List ℕ
  pub space : B → ℕ
  pub consume : ℕ → B → B
  pub prepare : ℕ → B → B
  pub commit : ℕ → B → B
  pub write : List ℕ → B → B
  pub read : ℕ → B → List ℕ × B
  pub consume_all : (b : B) → input (consume (length (input b)) b) ≡ []
  pub prepare_space : (n : ℕ) (b : B) → n ≤ space (prepare n b)
  pub prepare_input : (n : ℕ) (b : B) → input (prepare n b) ≡ input b
  pub commit_written :
      (bytes : List ℕ) (b : B)
      → length bytes ≤ space b
      → input (commit (length bytes) (write bytes b)) ≡ input b ++ bytes
  pub read_all : (b : B) → (read (length (input b)) b).0 ≡ input b

-- What they use of a `boost::lockfree::spsc_queue`: the queue holds at most as many elements as its
-- constructor was told, and gives them in the order in which they came; `push` answers whether there
-- was room.
pub record SpscQueue {ℓ κ} (A : Type ℓ) (Q : Type κ) : Type (ℓ ⊔ κ) where
  pub construct_queue : ℕ → Q
  pub push : A → Q → Bool × Q
  pub pop : Q → Option A × Q
  pub contents : Q → List A
  pub capacity : Q → ℕ
  pub construct_contents : (n : ℕ) → contents (construct_queue n) ≡ []
  pub construct_capacity : (n : ℕ) → capacity (construct_queue n) ≡ n
  pub push_room :
      (a : A) (q : Q)
      → length (contents q) < capacity q
      → contents (push a q).1 ≡ contents q ++ (a ∷ [])
  pub push_full :
      (a : A) (q : Q) → capacity q ≤ length (contents q) → contents (push a q).1 ≡ contents q
  pub push_capacity : (a : A) (q : Q) → capacity (push a q).1 ≡ capacity q
  pub pop_empty : (q : Q) → contents q ≡ [] → (pop q).0 ≡ none
  pub pop_empty_contents : (q : Q) → contents q ≡ [] → contents (pop q).1 ≡ []
  pub pop_first : (a : A) (rest : List A) (q : Q) → contents q ≡ a ∷ rest → (pop q).0 ≡ some a
  pub pop_rest : (a : A) (rest : List A) (q : Q) → contents q ≡ a ∷ rest → contents (pop q).1 ≡ rest
  pub pop_capacity : (q : Q) → capacity (pop q).1 ≡ capacity q
