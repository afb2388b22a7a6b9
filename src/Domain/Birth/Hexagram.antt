-- ===== src/Domain/Birth/Hexagram.antt =====
-- The tables of packages/domain/src/qianji/birth.ts: trigrams, hexagram names and tensions.
use emergent_inc.Common.{
  ℕ, ◌/◌, ◌%◌, Option, none, some, List, [], ◌∷◌, ◌++◌, String, Text, codes, text_eq, get_elem?,
}
use emergent_inc.Grid.{lookup_key}

abbrev pub trigrams : List String
trigrams = "地" ∷ "雷" ∷ "水" ∷ "泽" ∷ "山" ∷ "火" ∷ "风" ∷ "天" ∷ []

-- `Record<string, string>`, with the key and the name of each entry.
abbrev pub names : List (String × String)
names =
    ("天:天", "乾")
    ∷ ("天:泽", "履")
    ∷ ("天:火", "同人")
    ∷ ("天:雷", "无妄")
    ∷ ("天:风", "姤")
    ∷ ("天:水", "讼")
    ∷ ("天:山", "遁")
    ∷ ("天:地", "否")
    ∷ ("泽:天", "夬")
    ∷ ("泽:泽", "兑")
    ∷ ("泽:火", "革")
    ∷ ("泽:雷", "随")
    ∷ ("泽:风", "大过")
    ∷ ("泽:水", "困")
    ∷ ("泽:山", "咸")
    ∷ ("泽:地", "萃")
    ∷ ("火:天", "大有")
    ∷ ("火:泽", "睽")
    ∷ ("火:火", "离")
    ∷ ("火:雷", "噬嗑")
    ∷ ("火:风", "鼎")
    ∷ ("火:水", "未济")
    ∷ ("火:山", "旅")
    ∷ ("火:地", "晋")
    ∷ ("雷:天", "大壮")
    ∷ ("雷:泽", "归妹")
    ∷ ("雷:火", "丰")
    ∷ ("雷:雷", "震")
    ∷ ("雷:风", "恒")
    ∷ ("雷:水", "解")
    ∷ ("雷:山", "小过")
    ∷ ("雷:地", "豫")
    ∷ ("风:天", "小畜")
    ∷ ("风:泽", "中孚")
    ∷ ("风:火", "家人")
    ∷ ("风:雷", "益")
    ∷ ("风:风", "巽")
    ∷ ("风:水", "涣")
    ∷ ("风:山", "渐")
    ∷ ("风:地", "观")
    ∷ ("水:天", "需")
    ∷ ("水:泽", "节")
    ∷ ("水:火", "既济")
    ∷ ("水:雷", "屯")
    ∷ ("水:风", "井")
    ∷ ("水:水", "坎")
    ∷ ("水:山", "蹇")
    ∷ ("水:地", "比")
    ∷ ("山:天", "大畜")
    ∷ ("山:泽", "损")
    ∷ ("山:火", "贲")
    ∷ ("山:雷", "颐")
    ∷ ("山:风", "蛊")
    ∷ ("山:水", "蒙")
    ∷ ("山:山", "艮")
    ∷ ("山:地", "剥")
    ∷ ("地:天", "泰")
    ∷ ("地:泽", "临")
    ∷ ("地:火", "明夷")
    ∷ ("地:雷", "复")
    ∷ ("地:风", "升")
    ∷ ("地:水", "师")
    ∷ ("地:山", "谦")
    ∷ ("地:地", "坤")
    ∷ []

abbrev pub tensions : List String
tensions =
    "先留意周围的承受与容纳，再决定是否向前推进" ∷ "面对停滞时可能倾向启动变化，也会顾及变化带来的震荡" ∷ "遇到不明朗的局面，可能先辨认风险与深处的线索"
    ∷ "在表达与交换之间寻找入口，同时留意共识的边界" ∷ "更容易看见止步和蓄势的时机，却也可能错过眼前的窗口" ∷ "看见明确线索时愿意靠近，但会衡量照亮之后的代价"
    ∷ "倾向从细微处寻找可进入的路径，并留心方向是否偏移" ∷ "面对阻力可能选择主动开路，同时需要衡量持续的力量" ∷ []

abbrev encode_keys : List (String × String) → List (Text × Text)
encode_keys [] = []
encode_keys ((k, v) ∷ table) = (codes k, codes v) ∷ encode_keys table

-- A template prints a missing entry as this word.
abbrev pub or_undefined : Option Text → Text
or_undefined none = codes "undefined"
or_undefined (some s) = s

abbrev pub encode : Option String → Option Text
encode none = none
encode (some s) = some (codes s)

unfoldable pub trigram : ℕ → Text
trigram i = or_undefined (encode (get_elem? trigrams i))

unfoldable pub name_of : Text → Text → Option Text
unfolding lookup_key text_eq
name_of upper lower = lookup_key (upper ++ (codes ":" ++ lower)) (encode_keys names)

-- `TRIGRAMS[bits & 7]` and `TRIGRAMS[(bits >> 3) & 7]`
unfoldable pub hexagram : ℕ → Text
unfolding trigram name_of
hexagram bits =
    let lower = trigram (bits % 8) in
    let upper = trigram ((bits / 8) % 8) in upper ++ (lower ++ or_undefined (name_of upper lower))

unfoldable pub tension : ℕ → Text
tension i = or_undefined (encode (get_elem? tensions i))
