-- ===== src/Ai/Prompts.antt =====
-- ai/prompts: the texts that the models are asked with. `trim` takes the line ends at both ends away.
use tech_trends.Base.{List, [], ◌∷◌, ◌++◌, Text, units}
use tech_trends.Common.Text.Matchers.{trim}

abbrev join_lines : List Text → Text
join_lines [] = []
join_lines (line ∷ []) = line
join_lines (line ∷ next ∷ lines) = line ++ (10 ∷ join_lines (next ∷ lines))

-- With `JSON.stringify(items, null, 2)`.
unfoldable pub build_filter_batch_prompt : Text → Text
unfolding trim
build_filter_batch_prompt items_json = trim (
    join_lines (
      []
      ∷ units "  당신은 백엔드 개발자 시각의 IT 트렌드 큐레이터입니다."
      ∷ units "  아래 아티클 목록(제목 및 요약)을 읽고, 백엔드/DevOps/CS/개발기술 측면에서 실무에 도움이 되는 가치 있는 글의 ID만 선택하세요."
      ∷ []
      ∷ units "  [제외 대상]"
      ∷ units "  - 수필, 개인 회고, 개발 커리어 고민, 소소한 일상, 단순 질문 글"
      ∷ units "  - 단순 광고/홍보성 글"
      ∷ []
      ∷ units "  [평가 대상]"
      ∷ (units "  " ++ items_json)
      ∷ []
      ∷ units "  [응답 포맷 (JSON)]"
      ∷ units "  {"
      ∷ units "    \"valuable_ids\": [12345, 67890]"
      ∷ units "  }"
      ∷ units "  "
      ∷ []))

unfoldable pub build_summarize_content_prompt : Text → Text → Text
unfolding trim
build_summarize_content_prompt title content = trim (
    join_lines (
      []
      ∷ units "  당신은 IT 트렌드 전문 에디터이자 수석 백엔드 엔지니어입니다."
      ∷ units "  제공된 개발 블로그 글의 핵심 내용을 한국인 백엔드 개발자가 바로 실무에 참고할 수 있도록 요약하세요."
      ∷ []
      ∷ units "  [원문 정보]"
      ∷ (units "  - 영문 제목: " ++ title)
      ∷ (units "  - 본문 내용 (블로그 아티클 또는 Q&A): " ++ content)
      ∷ []
      ∷ units "  [문체 및 작성 규칙 - 엄격 준수]"
      ∷ units "  1. 제3자 관점 표현 절대 금지: \"이 글은\", \"저자는\", \"본문에서는\", \"언급합니다\" 등의 표현을 절대 사용하지 마세요."
      ∷ units "  2. 직접 설명체 사용: 기술 개요 문서를 작성하듯 직접적인 문체(~합니다, ~입니다)를 사용하세요."
      ∷ units "  3. 용어 유지: 영문 기술 용어는 원어 철자를 그대로 유지하세요."
      ∷ []
      ∷ units "  [작성 가이드 및 필드별 규칙]"
      ∷ units "  1. title: 기술 직관적인 한국어 제목"
      ∷ units "  2. short_summary: 핵심 내용을 친근한 존댓말(~해요 체) 3문장 배열로 작성"
      ∷ units "  3. long_summary: 아래 마크다운 구조를 준수하여 300자~500자 내외로 간결하게 상세 요약 작성"
      ∷ units
          "    - 원문에 실무 주의사항이나 장단점 내용이 부족하다면 해당 항목에 \"원문 내 별도 언급 없음\"으로 명시하거나 관련 기술의 일반적인 주의점 1줄로 대체할 것."
      ∷ units "  4. tags: 주요 기술 스택을 쉼표로 구분한 문자열"
      ∷ units "  5. 전체 응답(제목·요약·태그 포함)이 1000토큰을 넘지 않도록, 필요한 경우 long_summary 길이를 줄여라."
      ∷ []
      ∷ units "  [long_summary 마크다운 구조]"
      ∷ units "  ## 기술 개요 및 배경"
      ∷ units "  (기술의 등장 배경, 해결하고자 하는 문제 영역을 직접 서술)"
      ∷ []
      ∷ units "  ## 주요 내용 및 구현 방식"
      ∷ units "  (구체적인 기술 스택, Architecture, 핵심 알고리즘, 해결 전략을 불릿 포인트 - 로 구체적으로 서술)"
      ∷ []
      ∷ units "  ## 실무 적용 및 주의사항"
      ∷ units "  (실무 적용 시 장점, 한계점, 고려해야 할 규칙 서술)"
      ∷ []
      ∷ units "  [응답 포맷 (JSON)]"
      ∷ units "  {"
      ∷ units "    \"title\": \"가공된 한국어 제목\","
      ∷ units "    \"short_summary\": [\"문장 1이에요.\", \"문장 2이에요.\", \"문장 3이에요.\"],"
      ∷ units
          "    \"long_summary\": \"## 기술 개요 및 배경\\n...\\n\\n## 주요 내용 및 구현 방식\\n- ...\\n\\n## 실무 적용 및 주의사항\\n- ...\","
      ∷ units "    \"tags\": \"NestJS, Redis\""
      ∷ units "  }"
      ∷ units "  "
      ∷ []))
