-- ===== src/Ledger/Tx/Post.antt =====
-- The branches `tx_type == 3`, a new topic, and `tx_type == 4`, a reply.
use askcoin_core.Base.{
  ℕ, ◌+◌, not, Option, none, some, [], ◌∷◌, ◌++◌, Run, ok, ◌>>=◌, ◌>>◌, guard, require, length, ltb,
  ◌==◌, ◌||◌, if◌then◌else◌, ◌≡◌, refl, ◌≤◌, arith, Ensures, All-append, Bool-cases, inl, inr,
}
use askcoin_core.Base.Text.{Str, is_base64_char}
use askcoin_core.Base.Dict.{contains, insert, str_key}
use askcoin_core.External.{External}
use askcoin_core.Account.{HistoryType, Account, add_history, joined_topic}
use askcoin_core.Topic.{Topic, new_topic, new_reply, get_reply, push_reply, add_member}
use askcoin_core.Ledger.{
  Ledger, find_account, balance_of, sub_balance, edit_account, edit_topic, get_topic, coins,
}
use askcoin_core.Ledger.Balance.{total, sum_topics-append}
use askcoin_core.Ledger.Links.{IsLinked, IsAccount, OwnersKnown}
use askcoin_core.Ledger.Good.{
  Good, Good-refl, Good-trans, sub_balance-Good, edit_account-Good, edit_topic-Good,
  push_reply-Good, read-Good, guard-Good, bind-Good,
}
use askcoin_core.Ledger.Tx.{BlockInfo, uint64_field, base64_field}
use askcoin_core.Ledger.Tx.Fee.{entry, history-Good}

-- `topic_list.push_back` and `m_topics.insert`.
unfoldable pub add_topic : Topic → Ledger → Ledger
add_topic t s = record s { topics = insert t.key s.topics; topic_list = s.topic_list ++ t ∷ [] }

abbrev pub push_topic : Str → Account → Account
push_topic key a = record a { topic_list = a.topic_list ++ key ∷ [] }

-- The reward of a new topic moves from the account into the topic.
unfoldable pub open_topic : BlockInfo → Str → Str → ℕ → ℕ → Ledger → Ledger
unfolding add_topic
open_topic b tx_id text reward account s =
    edit_account account (add_history (entry b tx_id HistoryType.new_topic_reward reward)) (
      add_topic (new_topic tx_id text b.block_id reward account)
        (edit_account account (push_topic tx_id) (sub_balance account reward s)))

-- A topic takes up coins that were left.
add_topic-Good :
    (t : Topic) (n k : ℕ) (s u : Ledger)
    → k + t.balance ≡ n
    → OwnersKnown u.accounts t
    → Good s n u
    → Good s k (add_topic t u)
unfolding add_topic
add_topic-Good t n k s u e known g = record {
  linked = record {
    reserve_known = g.linked.reserve_known;
    pubkeys_known = g.linked.pubkeys_known;
    referrers_known = g.linked.referrers_known;
    owners_known =
        All-append (OwnersKnown u.accounts) u.topic_list (t ∷ []) g.linked.owners_known (known, tt);
  };
  kept = omega (arith, g.kept, sum_topics-append u.topic_list (t ∷ []));
  grows = g.grows;
}

open_topic-Good :
    (b : BlockInfo) (tx_id text : Str) (reward account : ℕ) (s : Ledger)
    → IsLinked s
    → IsAccount s.accounts account
    → total s ≤ coins
    → reward ≤ balance_of account s.accounts
    → Good s 0 (open_topic b tx_id text reward account s)
unfolding open_topic
open_topic-Good b tx_id text reward account s l k small enough =
    Good-trans refl opened (history-Good account _ _ opened.linked)
  where
    paid : Good s reward (sub_balance account reward s)
    paid = sub_balance-Good account reward s l k (omega arith) enough

    listed : Good s reward (edit_account account (push_topic tx_id) (sub_balance account reward s))
    listed = Good-trans (omega arith) paid (
        edit_account-Good account (push_topic tx_id) (sub_balance account reward s)
          (λ a. (refl, refl)) (λ a. refl) paid.linked)

    opened : Good s 0 (
        add_topic
          (new_topic tx_id text b.block_id reward account)
          (edit_account account (push_topic tx_id) (sub_balance account reward s)))
    opened =
        add_topic-Good (new_topic tx_id text b.block_id reward account) reward 0 s _ (omega arith)
          tt listed

abbrev pub push_joined : Str → Account → Account
push_joined key a = record a { joined_topic_list = a.joined_topic_list ++ key ∷ [] }

abbrev pub join_member : Str → ℕ → Topic → Topic
join_member tx_id account t = (add_member tx_id account t).0

-- An account that is not the owner joins the topic with its first reply.
unfoldable pub join : Str → ℕ → Topic → Ledger → Run Ledger
join tx_id account t s = do
  a ← require (find_account account s.accounts)
  if t.owner == account || joined_topic t.key a
      then ok s
      else guard (ltb (length a.joined_topic_list) 100)
        >> ok (
            edit_topic t.key (join_member tx_id account)
              (edit_account account (push_joined t.key) s))

join_member-replies :
    (tx_id : Str) (account : ℕ) (t : Topic)
    → (join_member tx_id account t).reply_list ≡ t.reply_list
unfolding add_member
join_member-replies tx_id account t = ground arith

join_member-balance :
    (tx_id : Str) (account : ℕ) (t : Topic) → (join_member tx_id account t).balance ≡ t.balance
unfolding add_member
join_member-balance tx_id account t = ground arith

join-Good :
    (tx_id : Str) (account : ℕ) (t : Topic) (s : Ledger)
    → IsLinked s
    → Ensures (Good s 0) (join tx_id account t s)
unfolding join
join-Good tx_id account t s l = read-Good s 0 (require (find_account account s.accounts)) _ (λ a _.
    elim (Bool-cases (t.owner == account || joined_topic t.key a)) [
      | inl old ↦ rw old (Good-refl s l)
      | inr new ↦ rw new (
          guard-Good s 0 (ltb (length a.joined_topic_list) 100) _ (λ _. Good-trans refl listed (
            edit_topic-Good t.key (join_member tx_id account) _
              (λ u h. rw (join_member-replies tx_id account u) h)
              (join_member-balance tx_id account) listed.linked)))
    ])
  where
    listed : Good s 0 (edit_account account (push_joined t.key) s)
    listed = edit_account-Good account (push_joined t.key) s (λ a. (refl, refl)) (λ a. refl) l

module _ (x : External) where
  open x use {Value, member, as_string}

  unfoldable pub publish : BlockInfo → Str → Value → ℕ → Ledger → Run Ledger
  unfolding open_topic
  publish b tx_id d account s = do
    reward ← uint64_field x "reward" d
    guard (not (reward == 0))
    guard (not (ltb (balance_of account s.accounts) reward))
    guard (not (contains tx_id s.topics))
    text ← base64_field x "topic" 4 1336 d
    a ← require (find_account account s.accounts)
    guard (ltb (length a.topic_list) 100)
    ok (open_topic b tx_id text reward account s)

  -- A reply may name another one of the topic, which has to be a text reply.
  pub read_reply_to : Topic → Value → Run (Option Str)
  read_reply_to t d = elim (member "reply_to" d) [
    | none ↦ ok none
    | some m ↦ do
      key ← require (as_string m)
      guard (is_base64_char key)
      guard (length key == 44)
      r ← require (get_reply key t)
      guard (r.kind == 0)
      ok (some key)
  ]

  unfoldable pub answer : BlockInfo → Str → Value → ℕ → Ledger → Run Ledger
  unfolding read_reply_to join
  answer b tx_id d account s = do
    topic_key ← base64_field x "topic_key" 44 44 d
    t ← require (get_topic topic_key s)
    text ← base64_field x "reply" 4 1336 d
    guard (ltb (length t.reply_list) 1000)
    to ← read_reply_to t d
    s' ← join tx_id account t s
    ok (
        edit_topic topic_key
          (push_reply (record (new_reply tx_id 0 b.block_id text account) { to = to })) s')

  -- A new topic keeps the total: its reward stays in the topic.
  pub publish-Good :
      (b : BlockInfo) (tx_id : Str) (d : Value) (account : ℕ) (s : Ledger)
      → IsLinked s
      → IsAccount s.accounts account
      → total s ≤ coins
      → Ensures (Good s 0) (publish b tx_id d account s)
  unfolding publish
  publish-Good b tx_id d account s l k small =
      read-Good s 0 (uint64_field x "reward" d) _ (λ reward _.
        guard-Good s 0 (not (reward == 0)) _ (λ _.
          guard-Good s 0 (not (ltb (balance_of account s.accounts) reward)) _ (λ enough.
            guard-Good s 0 (not (contains tx_id s.topics)) _ (λ _.
              read-Good s 0 (base64_field x "topic" 4 1336 d) _ (λ text _.
                read-Good s 0 (require (find_account account s.accounts)) _ (λ a _.
                  guard-Good s 0 (ltb (length a.topic_list) 100) _ (λ _.
                    open_topic-Good b tx_id text reward account s l k small (ground arith))))))))

  -- A reply keeps the total.
  pub answer-Good :
      (b : BlockInfo) (tx_id : Str) (d : Value) (account : ℕ) (s : Ledger)
      → IsLinked s
      → IsAccount s.accounts account
      → Ensures (Good s 0) (answer b tx_id d account s)
  unfolding answer
  answer-Good b tx_id d account s l k =
      read-Good s 0 (base64_field x "topic_key" 44 44 d) _ (λ topic_key _.
        read-Good s 0 (require (get_topic topic_key s)) _ (λ t _.
          read-Good s 0 (base64_field x "reply" 4 1336 d) _ (λ text _.
            guard-Good s 0 (ltb (length t.reply_list) 1000) _ (λ _.
              read-Good s 0 (read_reply_to t d) _ (λ to _.
                bind-Good s 0 0 0 (join tx_id account t s) _ refl (join-Good tx_id account t s l)
                  (λ u g. push_reply-Good topic_key _ u (g.grows account k) g.linked))))))
