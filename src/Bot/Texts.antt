-- ===== src/Bot/Texts.antt =====
-- app/bot/handlers.py: the fixed texts.
use aucnotif.Prelude.{ℕ, [], ◌∷◌, ◌++◌}
use aucnotif.Prelude.Text.{Text, codes}

-- The two forms of link, as three texts show them.
abbrev pub link_forms : Text
link_forms =
    codes
      "https://page.auctions.yahoo.co.jp/jp/auction/XXXXX или\nhttps://auctions.yahoo.co.jp/jp/auction/XXXXX"

abbrev pub help_text : Text
help_text =
    codes "Я отслеживаю аукционы Yahoo Auctions Japan.\n\n"
    ++ (codes "Управление — кнопками:\n"
        ++ (codes "📋 Мои аукционы — список отслеживаемых аукционов\n"
            ++ (codes "➕ Добавить аукцион — начать отслеживание\n\n"
                ++ (codes "Чтобы начать отслеживание, отправь мне ссылку на аукцион вида:\n"
                    ++ (link_forms
                        ++ (codes "\n\nУведомления: за 30, 15 и 5 минут до окончания, "
                            ++ (codes "при каждой новой ставке и продлении аукциона.\n\n"
                                ++ codes
                                    "Команды на всякий случай: /list, /help, /watch &lt;ссылка&gt;")))))))

abbrev pub main_menu_text : Text
main_menu_text = codes "Что будем делать?"

abbrev pub empty_list_text : Text
empty_list_text = codes "Список пуст. Отправь ссылку на аукцион, чтобы начать отслеживание."

abbrev pub name_prompt_text : Text
name_prompt_text =
    codes
      "Как назвать этот аукцион? Отправь название или /skip, чтобы оставить название лота с Yahoo."

abbrev pub list_header_text : Text
list_header_text = codes "🎯 Отслеживаемые аукционы:"

abbrev pub untitled : Text
untitled = codes "Без названия"

abbrev pub max_label_length : ℕ
max_label_length = 255

abbrev pub bad_link_text : Text
bad_link_text = codes "❌ Некорректная ссылка.\nДопустимы только ссылки вида:\n" ++ link_forms

abbrev pub send_link_text : Text
send_link_text = codes "Отправьте мне ссылку на аукцион вида:\n" ++ link_forms

-- A picture for a sign: the sign with its selector.
abbrev pub picture : Text → Text
picture sign = sign ++ 0xfe0f ∷ []

abbrev pub rate_limited_text : Text
rate_limited_text =
    picture (codes "⚠") ++ codes " Yahoo временно недоступен (rate limit). Попробуйте позже."

abbrev pub gone_text : Text
gone_text = codes "❌ Аукцион не найден. Возможно, он был удалён."

abbrev pub no_data_text : Text
no_data_text =
    picture (codes "⚠") ++ codes " Не удалось получить данные аукциона. Попробуйте позже."

abbrev pub already_text : Text
already_text = picture (codes "ℹ") ++ codes " Этот аукцион уже добавлен."

abbrev pub usage_text : Text
usage_text = codes "Формат: /watch &lt;ссылка на аукцион Yahoo&gt;"

abbrev pub keep_title_text : Text
keep_title_text = codes "Ок, оставлю название лота с Yahoo."

abbrev pub lost_text : Text
lost_text = codes "Что-то пошло не так. Добавьте аукцион заново."

abbrev pub not_listed_text : Text
not_listed_text = codes "Аукцион не найден в вашем списке."

abbrev pub not_found_text : Text
not_found_text = codes "Аукцион не найден."
