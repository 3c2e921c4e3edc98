-- ===== src/SelectById/Pages.antt =====
-- src/toggles/select-by-id.cpp: what is read of the index, whose pages have the hashes of consecutive ids.
use motion_planning_gadget_s.Common.{
  ℕ, zero, suc, ◌+◌, ◌-◌, ◌*◌, ◌/◌, ◌%◌, ◌≤◌, ◌<◌, ◌≡◌, refl, ap, ◌∙◌, min, Option, some, List, [],
  ◌∷◌, ◌++◌, ◌>>=◌, length, drop, length-append, word, add64, sub64, arith,
}
use motion_planning_gadget_s.Varint.{store}
use motion_planning_gadget_s.Varint.Bytes.{load-store, length-store}
use motion_planning_gadget_s.Pack.RoundTrip.{drop-drop}
use motion_planning_gadget_s.SelectById.{read_page, page_from, with_rest, read_interval}

-- A page from the id `first` on
abbrev pub hash_bytes : (ℕ → ℕ) → ℕ → ℕ → List ℕ
hash_bytes hash_of first zero = []
hash_bytes hash_of first (suc count) =
    store 8 (hash_of first) ++ hash_bytes hash_of (suc first) count

-- So many ids from the first one on, with their hashes
abbrev pub ids_from : (ℕ → ℕ) → ℕ → ℕ → List (ℕ × ℕ)
ids_from hash_of id zero = []
ids_from hash_of id (suc count) = (id, hash_of id) ∷ ids_from hash_of (suc id) count

length-hash_bytes : (h : ℕ → ℕ) (first count : ℕ) → length (hash_bytes h first count) ≡ 8 * count
length-hash_bytes h first zero = refl
length-hash_bytes h first (suc count) = omega (
  arith,
  length-append (store 8 (h first)) (hash_bytes h (suc first) count),
  length-store 8 (h first),
  length-hash_bytes h (suc first) count,
)

drop-hash_bytes :
    (h : ℕ → ℕ) (j count first : ℕ)
    → j ≤ count
    → drop (j * 8) (hash_bytes h first count) ≡ hash_bytes h (first + j) (count - j)
drop-hash_bytes h zero count first k =
    let none_off : 0 * 8 ≡ 0 = omega arith in
    let same_first : first ≡ first + 0 = omega arith in
    let same_count : count ≡ count - 0 = omega arith in
    ap (λ n. drop n (hash_bytes h first count)) none_off
    ∙ ap (λ n. hash_bytes h n count) same_first
    ∙ ap (hash_bytes h (first + 0)) same_count
drop-hash_bytes h (suc j) zero first k = absurd (omega (arith, k))
drop-hash_bytes h (suc j) (suc count) first k =
    let off : suc j * 8 ≡ 8 + j * 8 = omega arith in
    let next : suc first + j ≡ first + suc j = omega arith in
    let left : count - j ≡ suc count - suc j = omega arith in
    ap (λ n. drop n (hash_bytes h first (suc count))) off
    ∙ drop-drop 8 (j * 8) (hash_bytes h first (suc count))
    ∙ drop-hash_bytes h j count (suc first) (omega (arith, k))
    ∙ ap (λ n. hash_bytes h n (count - j)) next
    ∙ ap (hash_bytes h (first + suc j)) left

abbrev with_hash : ℕ → ℕ → ℕ × List ℕ → Option (List (ℕ × ℕ) × ℕ)
with_hash count id hash =
    read_page count (suc id) hash.1 >>= λ page. some ((id, hash.0) ∷ page.0, page.1)

-- The shorter of the ids to go and the page is read.
read_page-hash_bytes :
    (h : ℕ → ℕ) (count extent k id : ℕ)
    → k ≡ min count extent
    → ((j : ℕ) → id ≤ j → j < id + count → h j < word)
    → read_page count id (hash_bytes h id extent) ≡ some (ids_from h id k, count - k)
unfolding read_page
read_page-hash_bytes h zero extent k id e b =
    let none_read : 0 ≡ k = omega (arith, e) in
    let none_left : 0 ≡ 0 - k = omega arith in
    ap (λ n. some (ids_from h id n, 0)) none_read ∙ ap (λ n. some (ids_from h id k, n)) none_left
read_page-hash_bytes h (suc count) zero k id e b =
    let none_read : 0 ≡ k = omega (arith, e) in
    let all_left : suc count ≡ suc count - k = omega (arith, e) in
    ap (λ n. some (ids_from h id n, suc count)) none_read
    ∙ ap (λ n. some (ids_from h id k, n)) all_left
read_page-hash_bytes h (suc count) (suc extent) zero id e b = absurd (omega (arith, e))
read_page-hash_bytes h (suc count) (suc extent) (suc k) id e b =
    let left : count - k ≡ suc count - suc k = omega arith in
    ap (λ o. o >>= with_hash count id)
      (load-store 8 (h id) (hash_bytes h (suc id) extent)
        (omega (arith, b id (omega arith) (omega arith))))
    ∙ ap (λ o. o >>= λ page. some ((id, h id) ∷ page.0, page.1))
        (read_page-hash_bytes h count extent k (suc id) (omega (arith, e))
          (λ j l m. b j (omega (arith, l)) (omega (arith, m))))
    ∙ ap (λ n. some (ids_from h id (suc k), n)) left

ids_from-append :
    (h : ℕ → ℕ) (a b id : ℕ) → ids_from h id a ++ ids_from h (id + a) b ≡ ids_from h id (a + b)
ids_from-append h zero b id =
    let same_id : id + 0 ≡ id = omega arith in
    let same_count : b ≡ 0 + b = omega arith in
    ap (λ n. ids_from h n b) same_id ∙ ap (ids_from h id) same_count
ids_from-append h (suc a) b id =
    let next : id + suc a ≡ suc id + a = omega arith in
    let more : suc (a + b) ≡ suc a + b = omega arith in
    ap (λ n. (id, h id) ∷ (ids_from h (suc id) a ++ ids_from h n b)) next
    ∙ ap (λ l. (id, h id) ∷ l) (ids_from-append h a b (suc id))
    ∙ ap (ids_from h id) more

-- The page of the index that the cursor finds for an id: the hashes of consecutive ids up to the
-- page's key, this one among them.
pub record PageOf (seek : ℕ → Option (ℕ × List ℕ)) (hash_of : ℕ → ℕ) (id : ℕ) : Type 0 where
  pub first : ℕ
  pub extent : ℕ
  pub found : seek id ≡ some (first + extent - 1, hash_bytes hash_of first extent)
  pub from : first ≤ id
  pub to : id < first + extent
  pub small : 8 * (first + extent) < word

page_from-hash_bytes :
    (h : ℕ → ℕ) (id first extent : ℕ)
    → first ≤ id
    → id < first + extent
    → 8 * (first + extent) < word
    → page_from id (first + extent - 1, hash_bytes h first extent)
      ≡ hash_bytes h id (first + extent - id)
page_from-hash_bytes h id first extent a b c =
    let size = length-hash_bytes h first extent in
    let start : add64 (sub64 (first + extent - 1) (length (hash_bytes h first extent) / 8)) 1
        ≡ first =
      omega (arith, size, a, b, c) in
    let off : (sub64 id first * 8) % word ≡ (id - first) * 8 = omega (arith, a, b, c) in
    let at : first + (id - first) ≡ id = omega (arith, a) in
    let left : extent - (id - first) ≡ first + extent - id = omega (arith, a) in
    ap (λ n. drop ((sub64 id n * 8) % word) (hash_bytes h first extent)) start
    ∙ ap (λ n. drop n (hash_bytes h first extent)) off
    ∙ drop-hash_bytes h (id - first) extent first (omega (arith, a, b))
    ∙ ap (λ n. hash_bytes h n (extent - (id - first))) at
    ∙ ap (hash_bytes h id) left

-- A page with an id has so many hashes to read, at least one, and the next id is read behind them.
read_interval-step :
    (seek : ℕ → Option (ℕ × List ℕ)) (h : ℕ → ℕ) (fuel count id k : ℕ)
    → (page : PageOf seek h id) → k ≡ min (suc count) (page.first + page.extent - id)
    → ((j : ℕ) → id ≤ j → j < id + suc count → h j < word)
    → read_interval seek fuel (suc count - k) (id + k) ≡ some (ids_from h (id + k) (suc count - k))
    → read_interval seek (suc fuel) (suc count) id ≡ some (ids_from h id (suc count))
unfolding read_interval
read_interval-step seek h fuel count id k page e b rest =
    let f : List (ℕ × ℕ) × ℕ → Option (List (ℕ × ℕ)) = λ read.
      read_interval seek fuel read.1 (id + (suc count - read.1)) >>= λ r. with_rest read.0 r in
    let next : id + (suc count - (suc count - k)) ≡ id + k = omega (arith, e) in
    let whole : k + (suc count - k) ≡ suc count = omega (arith, e) in
    ap (λ o. o >>= λ p. read_page (suc count) id (page_from id p) >>= f) page.found
    ∙ ap (λ l. read_page (suc count) id l >>= f)
        (page_from-hash_bytes h id page.first page.extent page.from page.to page.small)
    ∙ ap (λ o. o >>= f)
        (read_page-hash_bytes h (suc count) (page.first + page.extent - id) k id e b)
    ∙ ap (λ i. read_interval seek fuel (suc count - k) i >>= λ r. with_rest (ids_from h id k) r)
        next
    ∙ ap (λ o. o >>= λ r. with_rest (ids_from h id k) r) rest
    ∙ ap some (ids_from-append h k (suc count - k) id)
    ∙ ap (λ n. some (ids_from h id n)) whole

-- The loops over the pages end, and read the hash of each id.
pub read_interval-ids_from :
    (seek : ℕ → Option (ℕ × List ℕ)) (h : ℕ → ℕ) (fuel count id : ℕ)
    → ((j : ℕ) → id ≤ j → j < id + count → PageOf seek h j)
    → ((j : ℕ) → id ≤ j → j < id + count → h j < word)
    → count < fuel
    → read_interval seek fuel count id ≡ some (ids_from h id count)
unfolding read_interval
read_interval-ids_from seek h zero count id pages b f = absurd (omega arith)
read_interval-ids_from seek h (suc fuel) zero id pages b f = refl
read_interval-ids_from seek h (suc fuel) (suc count) id pages b f =
    let page = pages id (omega arith) (omega arith) in
    let k = min (suc count) (page.first + page.extent - id) in
    let some_read : 0 < k = omega (arith, page.to) in
    let most : k ≤ suc count = omega arith in
    read_interval-step seek h fuel count id k page refl b (
      read_interval-ids_from seek h fuel (suc count - k) (id + k)
        (λ j l m. pages j (omega (arith, l)) (omega (arith, l, m, most)))
        (λ j l m. b j (omega (arith, l)) (omega (arith, l, m, most))) (omega (arith, some_read, f)))
