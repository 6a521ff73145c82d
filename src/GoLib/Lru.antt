-- ===== src/GoLib/Lru.antt =====
-- The LRU cache of github.com/hashicorp/golang-lru/v2, which the program only calls: its operations
-- and what the program relies on. `peek` says what a key holds; a write may evict other keys.
pub mod Unbounded
pub mod Pointers
use mcp_searxng_relay.Base.{Text, ◌≡◌, ◌≢◌, ◌⊎◌, Option, none, some}

pub record Lru (V : Type 0) : Type 1 where
  pub Cache : Type 0
  pub empty : Cache
  pub peek : Cache → Text → Option V
  -- The cache after a `Get`, which may promote the key.
  pub get : Cache → Text → Cache
  pub add : Cache → Text → V → Cache
  pub remove : Cache → Text → Cache
  pub peek-empty : (k : Text) → peek empty k ≡ none
  pub peek-get : (c : Cache) (k j : Text) → peek (get c k) j ≡ peek c j
  pub peek-add_self : (c : Cache) (k : Text) (v : V) → peek (add c k v) k ≡ some v
  pub peek-add_ne :
      (c : Cache) (k j : Text) (v : V)
      → k ≢ j
      → (peek (add c k v) j ≡ none) ⊎ (peek (add c k v) j ≡ peek c j)
  pub peek-remove_self : (c : Cache) (k : Text) → peek (remove c k) k ≡ none
  pub peek-remove_ne : (c : Cache) (k j : Text) → k ≢ j → peek (remove c k) j ≡ peek c j
