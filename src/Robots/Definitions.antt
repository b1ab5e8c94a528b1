-- ===== src/Robots/Definitions.antt =====
-- The robots of app/robots/short_pause.py, app/robots/rest_request.py and app/robots/wait_field.py.
use b24_sinedis.Prelude.{pos, String, true, false}
use b24_sinedis.Value.{Value, obj, str, int, Fields, field, end}
use b24_sinedis.Bitrix.Registration.{RobotDefinition}

abbrev pub in_languages : String → String → Fields
in_languages ru en = field "ru" (str ru) (field "en" (str en) end)

-- a property that is returned
abbrev pub returned : String → String → String → Value
returned ru en kind = obj (field "Name" (obj (in_languages ru en)) (field "Type" (str kind) end))

-- a property that is asked for, with the further fields
abbrev pub asked : String → String → String → String → String → Fields → Value
asked ru en kind required multiple more = obj (
    field "Name" (obj (in_languages ru en)) (
      field "Type" (str kind)
        (field "Required" (str required) (field "Multiple" (str multiple) more))))

abbrev pub described : String → String → String → String → String → String → Value → Value
described ru en about_ru about_en kind required initial = obj (
    field "Name" (obj (in_languages ru en)) (
      field "Description" (obj (in_languages about_ru about_en)) (
        field "Type" (str kind) (
          field "Required" (str required)
            (field "Multiple" (str "N") (field "Default" initial end))))))

abbrev pub short_pause_robot : RobotDefinition
short_pause_robot = record {
  code = "sinedis.short_pause.v1";
  handler_path = "api/bitrix/robots/short-pause";
  name = in_languages "Короткая пауза" "Short pause";
  description =
      in_languages
        "Приостанавливает выполнение автоматизации или бизнес-процесса на указанное количество секунд."
        "Pauses an automation rule or workflow for the specified number of seconds.";
  properties =
      field "delay_seconds"
        (described "Продолжительность, секунд" "Duration, seconds"
          "Время ожидания перед продолжением процесса."
          "Time to wait before continuing the process." "int" "Y" (int (pos 10)))
        (field "comment"
          (described "Комментарий" "Comment" "Необязательное описание причины паузы."
            "Optional description of the pause." "string" "N" (str ""))
          end);
  return_properties = field "status" (returned "Статус" "Status" "string") (
      field "job_id" (returned "Идентификатор задания" "Job ID" "string") (
        field "scheduled_at" (returned "Запланировано" "Scheduled at" "datetime") (
          field "resumed_at" (returned "Продолжено" "Resumed at" "datetime") (
            field "requested_delay_seconds" (returned "Запрошенная пауза" "Requested delay" "int") (
              field "actual_delay_seconds" (returned "Фактическая пауза" "Actual delay" "int")
                end)))));
  use_subscription = true;
  use_placement = false;
}

abbrev error_recipients : Fields
error_recipients =
    field "error_recipients" (asked "Уведомлять об ошибке" "Notify on error" "user" "N" "Y" end) end

abbrev error_properties : Fields
error_properties =
    field "error_code" (returned "Код ошибки" "Error code" "string")
      (field "error_message" (returned "Описание ошибки" "Error message" "text") end)

abbrev pub rest_request_robot : RobotDefinition
rest_request_robot = record {
  code = "sinedis.rest_request.robot.v1";
  handler_path = "api/bitrix/robots/rest-request";
  name = in_languages "REST-запрос" "REST request";
  description =
      in_languages "Выполняет REST-метод и выбирает результат по JSONPath."
        "Calls a REST method and selects its result with JSONPath.";
  properties = field "rest_method" (asked "REST-метод" "REST method" "string" "Y" "N" end) (
      field "request_params_json"
        (asked "Параметры REST-запроса (JSON)" "REST parameters (JSON)" "text" "Y" "N"
          (field "Default" (str "{}") end))
        (field "jsonpath"
          (asked "JSONPath" "JSONPath" "string" "Y" "N" (field "Default" (str "$") end))
          error_recipients));
  return_properties = field "status" (returned "Статус" "Status" "string") (
      field "job_id" (returned "Идентификатор задания" "Job ID" "string") (
        field "result_text" (returned "Результат" "Result" "text") (
          field "result_json" (returned "Результат JSON" "JSON result" "text") (
            field "matches_count" (returned "Количество совпадений" "Matches count" "int")
              error_properties))));
  use_subscription = true;
  use_placement = false;
}

abbrev pub wait_field_robot : RobotDefinition
wait_field_robot = record {
  code = "sinedis.wait_field.robot.v1";
  handler_path = "api/bitrix/robots/wait-field";
  name = in_languages "Ожидать заполнения поля CRM" "Wait for CRM field";
  description =
      in_languages "Продолжает процесс после заполнения поля CRM."
        "Continues the workflow when a CRM field is populated.";
  properties =
      field "entity_type_id"
        (asked "ID типа CRM-сущности" "CRM entity type ID" "int" "Y" "N"
          (field "Default" (int (pos 2)) end))
        (field "entity_id" (asked "ID элемента" "Entity ID" "int" "Y" "N" end) (
          field "field_name" (asked "Код поля" "Field name" "string" "Y" "N" end) (
            field "poll_interval_seconds"
              (asked "Интервал проверки, секунд" "Polling interval, seconds" "int" "Y" "N"
                (field "Default" (int (pos 30)) end))
              (field "timeout_seconds"
                (asked "Максимальное время ожидания, секунд" "Maximum wait time, seconds" "int" "Y"
                  "N" (field "Default" (int (pos 86400)) end))
                error_recipients))));
  return_properties = field "status" (returned "Статус" "Status" "string") (
      field "job_id" (returned "Идентификатор задания" "Job ID" "string") (
        field "field_value" (returned "Значение поля" "Field value" "text") (
          field "checks_count" (returned "Количество проверок" "Checks count" "int") (
            field "completed_at" (returned "Условие выполнено" "Condition completed at" "datetime")
              error_properties))));
  use_subscription = true;
  use_placement = false;
}
