-- ===== src/Lru.antt =====
-- What the code relies on of github.com/hashicorp/golang-lru: a bounded map that may drop an entry
-- when another is added, but only one that is full does.
pub mod Recent
use caddy_dynamic_routing.Base.{
  ℕ, ◌+◌, ◌≤◌, ◌<◌, ◌≡◌, ◌≢◌, ◌⊎◌, ◌↔◌, Option, none, some, List, Text, In, str_eq, if◌then◌else◌,
}

pub record Lru (V : Type 0) : Type 1 where
  pub Cache : Type 0
  pub new : ℕ → Cache
  pub get : Text → Cache → Option V × Cache
  pub peek : Text → Cache → Option V
  pub add : Text → V → Cache → Cache
  pub remove : Text → Cache → Cache
  pub purge : Cache → Cache
  pub keys : Cache → List Text
  pub len : Cache → ℕ
  pub size : Cache → ℕ
  pub peek-new : (n : ℕ) (k : Text) → peek k (new n) ≡ none
  pub get-peek : (k : Text) (c : Cache) → (get k c).0 ≡ peek k c
  pub peek-get : (j k : Text) (c : Cache) → peek j (get k c).1 ≡ peek j c
  pub peek-add_self : (k : Text) (v : V) (c : Cache) → peek k (add k v c) ≡ some v
  pub peek-add_ne :
      (j k : Text) (v : V) (c : Cache)
      → j ≢ k
      → (peek j (add k v c) ≡ peek j c) ⊎ (peek j (add k v c) ≡ none)
  pub peek-remove :
      (j k : Text) (c : Cache) → peek j (remove k c) ≡ (if str_eq k j then none else peek j c)
  pub peek-purge : (k : Text) (c : Cache) → peek k (purge c) ≡ none
  pub mem-keys : (k : Text) (c : Cache) → In k (keys c) ↔ (peek k c ≢ none)
  pub peek-add_room :
      (j k : Text) (v : V) (c : Cache) → j ≢ k → len c < size c → peek j (add k v c) ≡ peek j c
  pub len-add : (k : Text) (v : V) (c : Cache) → len (add k v c) ≤ len c + 1
  pub size-add : (k : Text) (v : V) (c : Cache) → size (add k v c) ≡ size c
  pub len-remove : (k : Text) (c : Cache) → len (remove k c) ≤ len c
  pub size-remove : (k : Text) (c : Cache) → size (remove k c) ≡ size c
