-- ===== src/Tests/Client.antt =====
-- chatterc/: options in columns, the tab key, a page, and a line that is run.
use chatter.Base.{
  ℕ, ◌++◌, ◌-◌, ◌<◌, ◌+◌, ◌/◌, true, false, List, [], ◌∷◌, none, some, Str, codes, length, take,
  drop, ◌≡◌, refl, ◌⊎◌, arith,
}
use chatter.Base.Int.{pos}
use chatter.Base.Result.{Result, ok}
use chatter.Commands.Completion.{last_field, autocomplete_fields}
use chatter.Client.Prefix.{common_prefix_len, LongestCommon, common_prefix_len-LongestCommon}
use chatter.Client.Layout.{longest_len, wrap}
use chatter.Client.Layout.Columns.{Columns, wrap-Columns}
use chatter.Client.Tab.{Reply, autocomplete_with_tab}
use chatter.Client.Tab.Extends.{Extends, autocomplete_with_tab-Extends}
use chatter.Client.Pager.{Pager, write}
use chatter.Client.Pager.Written.{Written, write-Written}
use chatter.Tests.Commands.{graph, parse_one, height, ipv6_and_ip}

common_prefix_len-LongestCommon_example :
    LongestCommon
      (codes "ipv4" ∷ codes "ipv6" ∷ [])
      (take (common_prefix_len (codes "ipv4" ∷ codes "ipv6" ∷ [])) (codes "ipv4"))
    × (length (take (common_prefix_len (codes "ipv4" ∷ codes "ipv6" ∷ [])) (codes "ipv4"))
        ≡ common_prefix_len (codes "ipv4" ∷ codes "ipv6" ∷ []))
common_prefix_len-LongestCommon_example =
    common_prefix_len-LongestCommon (codes "ipv4") (codes "ipv6" ∷ [])

abbrev words : List Str
words = codes "ip" ∷ codes "ipv6" ∷ codes "ospf" ∷ []

wrap-Columns_example :
    (ls : List Str) × (wrap (some 15) 2 words ≡ ok ls)
    × (((15 - 2 < longest_len 0 words + 2) × (ls ≡ words))
        ⊎ Columns 2 ((15 - 2) / (longest_len 0 words + 2)) (longest_len 0 words + 2) words ls)
wrap-Columns_example = wrap-Columns 15 2 words (omega arith)

-- A row for each text, whose second cell has two lines; a number is what an item's error would be.
abbrev two_columns : Str → Result ℕ (List Str)
two_columns s = ok (s ∷ (codes "a" ++ 10 ∷ codes "bc") ∷ [])

autocomplete_with_tab-Extends_example :
    (reply : Reply) × (field : Str) × (autocomplete_with_tab parse_one height graph 0
        (some 80)
        false
        (codes "sh i")
        4
      ≡ ok reply)
    × (last_field (autocomplete_fields (take 4 (codes "sh i"))) ≡ ok field)
    × Extends
        (codes "ip" ∷ codes "ipv6" ∷ [])
        field
        (take 4 (codes "sh i"))
        (drop 4 (codes "sh i"))
        reply
autocomplete_with_tab-Extends_example =
    autocomplete_with_tab-Extends parse_one height graph 0 (some 80) false (codes "sh i") 4
      (omega arith) ipv6_and_ip

-- A page of two lines, the second line shown, and the keys j and q.
abbrev paged : Pager
paged = record {
  input = (b'j' ∷ []) ∷ (b'q' ∷ []) ∷ [];
  output = [];
  buf = [];
  should_page = true;
  line = pos 2;
  stopped = false;
}

write-Written_example :
    Written paged (codes "one two") (write (λ n. none) (some 3) (codes "one two") paged)
write-Written_example = write-Written (λ n. none) (λ n. refl) 3 (codes "one two") paged refl
