-- ===== src/Privacy/Generator/Fakes.antt =====
-- privacy/generator.go: FakeGenerator.Generate. Intn of math/rand draws from a world `W`, and the
-- classes of package unicode are parameters.
use Prim.Native.Char.{Char}
use ao_eo.Base.{
  ℕ, zero, suc, ◌+◌, String, Bool, true, false, ◌&&◌, List, [], ◌∷◌, ◌++◌, length, get_or, ltb,
  ◌==◌, if◌then◌else◌, str_eq, is_prefix, append, byte_len,
}
use ao_eo.Privacy.Generator.Texts.{
  digits, lower_letters, upper_letters, decimal, shown, padded, values_of, check_text, split_on,
  last_of, joined, any_char, begins_with_one, kept_suffix,
}
use ao_eo.Privacy.Generator.{generic_mask, compute_id_check_digit}

-- unicode.IsDigit, IsUpper, IsLower and Is(unicode.Han, r)
pub record Classes : Type 0 where
  pub is_digit : Char → Bool
  pub is_upper : Char → Bool
  pub is_lower : Char → Bool
  pub is_han : Char → Bool

module _ {W : Type 0} (intn : ℕ → W → ℕ × W) where
  -- lo + g.rnd.Intn(n)
  abbrev pub from_to : ℕ → ℕ → W → ℕ × W
  from_to lo n w = (lo + (intn n w).0, (intn n w).1)

  -- One of a list: xs[g.rnd.Intn(len(xs))], where Intn(n) is below n
  unfoldable pub one_of : List String → W → String × W
  one_of xs w = (get_or xs (intn (length xs) w).0 "", (intn (length xs) w).1)

  -- randomSuffix
  unfoldable pub random_suffix : ℕ → W → String × W
  unfolding one_of
  random_suffix zero w = ("", w)
  random_suffix (suc n) w =
      let (c, w') = one_of (lower_letters ++ digits) w in
      let (cs, w'') = random_suffix n w' in (append c cs, w'')

  -- A format around one random suffix of six characters
  abbrev pub around_suffix : String → String → W → String × W
  around_suffix front back w =
      let (suffix, w') = random_suffix 6 w in (joined (front ∷ suffix ∷ back ∷ []), w')

  -- Three numbers below 256, with dots before them
  unfoldable pub dotted : ℕ → W → String × W
  dotted zero w = ("", w)
  dotted (suc n) w =
      let (k, w') = intn 256 w in
      let (rest, w'') = dotted n w' in (joined ("." ∷ shown k ∷ rest ∷ []), w'')

  -- The choice of the network in fakeIP
  abbrev pub ip_of : ℕ → W → String × W
  ip_of zero w = let (rest, w') = dotted 3 w in (append "10" rest, w')
  ip_of (suc zero) w =
      let (k, w') = from_to 16 16 w in
      let (rest, w'') = dotted 2 w' in (joined ("172." ∷ shown k ∷ rest ∷ []), w'')
  ip_of (suc (suc n)) w = let (rest, w') = dotted 2 w in (append "192.168" rest, w')

  unfoldable pub fake_ip : W → String × W
  unfolding dotted decimal
  fake_ip w = let (n, w') = intn 3 w in ip_of n w'

  unfoldable pub fake_domain : String → W → String × W
  unfolding random_suffix split_on
  fake_domain original w =
      let parts = split_on "." original in
      if ltb 1 (length parts) && kept_suffix (last_of parts)
      then around_suffix "internal-" (append ".masked." (last_of parts)) w
      else around_suffix "masked-" ".local" w

  unfoldable pub fake_chinese_name : W → String × W
  unfolding one_of
  fake_chinese_name w =
      let (surname, w') =
        one_of
          ("李" ∷ "王" ∷ "张" ∷ "刘" ∷ "陈" ∷ "杨" ∷ "赵" ∷ "黄" ∷ "周" ∷ "吴" ∷ "徐" ∷ "孙" ∷ "马" ∷ "朱" ∷ "胡"
            ∷ [])
          w in
      let (name, w'') =
        one_of
          ("伟" ∷ "芳" ∷ "娜" ∷ "敏" ∷ "静" ∷ "丽" ∷ "强" ∷ "磊" ∷ "军" ∷ "洋" ∷ "勇" ∷ "艳" ∷ "杰" ∷ "娟" ∷ "涛"
            ∷ [])
          w' in
      (append surname name, w'')

  unfoldable pub fake_english_name : W → String × W
  unfolding one_of
  fake_english_name w =
      let (first, w') =
        one_of
          ("James" ∷ "Mary" ∷ "John" ∷ "Patricia" ∷ "Robert" ∷ "Jennifer" ∷ "Michael" ∷ "Linda"
            ∷ [])
          w in
      let (family, w'') =
        one_of
          ("Smith" ∷ "Johnson" ∷ "Williams" ∷ "Brown" ∷ "Jones" ∷ "Garcia" ∷ "Miller" ∷ "Davis"
            ∷ [])
          w' in
      (joined (first ∷ " " ∷ family ∷ []), w'')

  unfoldable pub fake_name : Classes → String → W → String × W
  unfolding fake_chinese_name fake_english_name
  fake_name u original w =
      if any_char u.is_han original then fake_chinese_name w else fake_english_name w

  -- A character of the same class, as `fakeSecret` draws it; `fakePhone` draws digits only.
  abbrev pub drawn_like : List String → Bool → Char → W → String × W → String × W
  drawn_like xs true c w rest = one_of xs w
  drawn_like xs false c w rest = rest

  unfoldable pub other_digits : Classes → String → W → String × W
  unfolding one_of
  other_digits u String.[] w = ("", w)
  other_digits u (String.◌∷◌ c s) w =
      let (d, w') = drawn_like digits (u.is_digit c) c w (String.◌∷◌ c "", w) in
      let (rest, w'') = other_digits u s w' in (append d rest, w'')

  unfoldable pub fake_phone : Classes → String → W → String × W
  unfolding other_digits one_of decimal
  fake_phone u original w =
      if byte_len original == 11 && begins_with_one original
      then (let (prefix, w') =
            one_of
              ("138" ∷ "139" ∷ "135" ∷ "136" ∷ "137" ∷ "150" ∷ "151" ∷ "152" ∷ "157" ∷ "158" ∷ "159"
                ∷ "186" ∷ "187" ∷ "188" ∷ [])
              w in
          let (n, w'') = intn 100_000_000 w' in (append prefix (padded 8 n), w''))
      else other_digits u original w

  unfoldable pub fake_id_card : W → String × W
  unfolding one_of decimal compute_id_check_digit
  fake_id_card w =
      let (area, w1) =
        one_of ("110101" ∷ "310101" ∷ "440106" ∷ "500101" ∷ "510107" ∷ "330106" ∷ "420106" ∷ [])
          w in
      let (year, w2) = from_to 1970 40 w1 in
      let (month, w3) = from_to 1 12 w2 in
      let (day, w4) = from_to 1 28 w3 in
      let (seq, w5) = intn 1000 w4 in
      let base =
        joined (area ∷ padded 4 year ∷ padded 2 month ∷ padded 2 day ∷ padded 3 seq ∷ []) in
      (append base (check_text (compute_id_check_digit (values_of base))), w5)

  unfoldable pub fake_secret : Classes → String → W → String × W
  unfolding one_of
  fake_secret u String.[] w = ("", w)
  fake_secret u (String.◌∷◌ c s) w =
      let (d, w') = drawn_like digits (u.is_digit c) c w (
        drawn_like upper_letters (u.is_upper c) c w
          (drawn_like lower_letters (u.is_lower c) c w (String.◌∷◌ c "", w))) in
      let (rest, w'') = fake_secret u s w' in (append d rest, w'')

  unfoldable pub fake_address : W → String × W
  unfolding one_of decimal
  fake_address w =
      let (city, w1) = one_of ("北京市" ∷ "上海市" ∷ "广州市" ∷ "深圳市" ∷ "成都市" ∷ "杭州市" ∷ []) w in
      let (district, w2) = one_of ("朝阳区" ∷ "海淀区" ∷ "天河区" ∷ "南山区" ∷ "武侯区" ∷ "西湖区" ∷ []) w1 in
      let (street, w3) = one_of ("建国路" ∷ "人民大道" ∷ "解放街" ∷ "中山路" ∷ "建设大道" ∷ "和平路" ∷ []) w2 in
      let (number, w4) = from_to 100 900 w3 in
      let (room, w5) = from_to 1 30 w4 in
      (joined (city ∷ district ∷ street ∷ shown number ∷ "号" ∷ shown room ∷ "室" ∷ []), w5)

  abbrev pub email_host : List String → String
  email_host (user ∷ host ∷ []) = host
  email_host _ = "example.com"

  unfoldable pub fake_email : String → W → String × W
  unfolding random_suffix split_on
  fake_email original w = around_suffix "user-" (append "@" (email_host (split_on "@" original))) w

  unfoldable pub fake_url : String → W → String × W
  unfolding random_suffix
  fake_url original w =
      if is_prefix "https://" original
      then around_suffix "https://internal-" ".masked.local/path" w
      else around_suffix "http://internal-" ".masked.local/path" w

  unfoldable pub fake_date : W → String × W
  unfolding decimal
  fake_date w =
      let (year, w1) = from_to 1980 40 w in
      let (month, w2) = from_to 1 12 w1 in
      let (day, w3) = from_to 1 28 w2 in
      (joined (padded 4 year ∷ "-" ∷ padded 2 month ∷ "-" ∷ padded 2 day ∷ []), w3)

  -- Generate
  unfoldable pub generate : Classes → String → String → W → String × W
  unfolding fake_ip fake_domain fake_name fake_phone fake_id_card fake_secret fake_address
      fake_email fake_url fake_date generic_mask
  generate u label original w =
      if str_eq label "ip"
      then fake_ip w
      else if str_eq label "domain"
      then fake_domain original w
      else if str_eq label "person"
      then fake_name u original w
      else if str_eq label "phone"
      then fake_phone u original w
      else if str_eq label "idcard"
      then fake_id_card w
      else if str_eq label "secret"
      then fake_secret u original w
      else if str_eq label "address"
      then fake_address w
      else if str_eq label "email"
      then fake_email original w
      else if str_eq label "url"
      then fake_url original w
      else if str_eq label "date"
      then fake_date w
      else (generic_mask original, w)
